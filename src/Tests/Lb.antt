-- ===== src/Tests/Lb.antt =====
-- The load balancer with two upstreams, of which one cannot be reached.
use rinha_de_backend.Base.{
  ◌≡◌, true, false, [], ◌∷◌, List, none, some, arith, get_elem?, map, pos, negsuc,
}
use rinha_de_backend.Lb.{Balancer, Accepted, balance, balance-turn}

abbrev two_upstreams : Balancer
two_upstreams = record { next = 4294967295; ctrl_fds = pos 5 ∷ negsuc 0 ∷ [] }

abbrev three_accepted : List Accepted
three_accepted =
    record { send_works = true; dialed = none }
    ∷ record { send_works = false; dialed = some 9 }
    ∷ record { send_works = true; dialed = none }
    ∷ []

balance-turn_example :
    get_elem? (map (λ h. h.upstream) (balance two_upstreams three_accepted)) 2 ≡ some 1
balance-turn_example = balance-turn three_accepted two_upstreams 2 (omega arith) (omega arith)
