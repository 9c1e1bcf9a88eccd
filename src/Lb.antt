-- ===== src/Lb.antt =====
-- cmd/lb/main.go: the loop of the load balancer, over the results of its system calls.
use rinha_de_backend.Base.{
  ℕ, zero, suc, ◌+◌, ◌%◌, ◌^◌, ◌<◌, ◌≡◌, refl, ap, ◌∙◌, Bool, true, false, List, [], ◌∷◌, Option,
  none, some, arith, if◌then◌else◌, length, get_or, get_elem?, set, length-set, map, ℤ, pos, negsuc,
}

-- `next` is a uint32; a control socket that could not be opened again is -1.
pub record Balancer : Type 0 where
  pub next : ℕ
  pub ctrl_fds : List ℤ

-- What happens to one accepted connection: whether Sendmsg succeeds, and what a dial would return.
pub record Accepted : Type 0 where
  pub send_works : Bool
  pub dialed : Option ℕ

-- The upstream that is chosen, and whether it was given the connection.
pub record Handoff : Type 0 where
  pub upstream : ℕ
  pub sent : Bool

abbrev pub chosen : Balancer → ℕ
chosen b = b.next % length b.ctrl_fds

-- sendFd; a negative descriptor is EBADF.
unfoldable pub send_fd : ℤ → Bool → Bool
send_fd (pos fd) works = works
send_fd (negsuc n) works = false

abbrev pub redial : Option ℕ → ℤ
redial none = negsuc 0
redial (some fd) = pos fd

unfoldable pub send_next : Balancer → Accepted → Bool
send_next b a = send_fd (get_or b.ctrl_fds (chosen b) (negsuc 0)) a.send_works

-- The body of the loop behind an Accept4 that succeeded. The connection is closed in any case, so
-- that one that was not sent is lost to its client.
unfoldable pub hand_off : Balancer → Accepted → Balancer
hand_off b a = record {
  next = (b.next + 1) % 2 ^ 32;
  ctrl_fds = if send_next b a then b.ctrl_fds else set b.ctrl_fds (chosen b) (redial a.dialed);
}

unfoldable pub balance : Balancer → List Accepted → List Handoff
balance b [] = []
balance b (a ∷ others) =
    record { upstream = chosen b; sent = send_next b a } ∷ balance (hand_off b a) others

hand_off-length : (b : Balancer) (a : Accepted) → length (hand_off b a).ctrl_fds ≡ length b.ctrl_fds
unfolding hand_off
hand_off-length b a =
    elim (send_next b a)
      as (λ t.
        length (if t then b.ctrl_fds else set b.ctrl_fds (chosen b) (redial a.dialed))
        ≡ length b.ctrl_fds) [
          | true ↦ refl
          | false ↦ length-set b.ctrl_fds (chosen b) (redial a.dialed)
        ]

-- From a counter that is a uint32, connection j of those accepted goes to upstream (next + j) mod
-- 2 ^ 32 mod the number of upstreams, whichever sends and dials fail: a failure neither skips an
-- upstream nor drops one from the turn.
pub balance-turn :
    (taken : List Accepted) (b : Balancer) (j : ℕ)
    → b.next < 2 ^ 32
    → j < length taken
    → get_elem? (map (λ h. h.upstream) (balance b taken)) j
      ≡ some ((b.next + j) % 2 ^ 32 % length b.ctrl_fds)
unfolding balance
balance-turn [] b j small lt = absurd (omega arith)
balance-turn (a ∷ others) b zero small lt =
    let e : (b.next + 0) % 2 ^ 32 ≡ b.next = omega arith in rw e refl
balance-turn (a ∷ others) b (suc j) small lt =
    let e : ((b.next + 1) % 2 ^ 32 + j) % 2 ^ 32 ≡ (b.next + suc j) % 2 ^ 32 = omega arith in
    let less : (b.next + 1) % 2 ^ 32 < 2 ^ 32 = omega arith in
    let further = balance-turn others (hand_off b a) j (unfold hand_off in less) (omega arith) in
    further
    ∙ ap some (
        ap (λ k. ((hand_off b a).next + j) % 2 ^ 32 % k) (hand_off-length b a)
        ∙ ap (λ m. m % length b.ctrl_fds) (unfold hand_off in e))
