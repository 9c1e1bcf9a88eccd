-- ===== src/Tests/Picks.antt =====
-- The choice of clusters on five distances.
use rinha_de_backend.Base.{ℕ, List, [], ◌∷◌, ◌≡◌, refl}
use rinha_de_backend.Search.Centroid.{pick_top_n_centroids}
use rinha_de_backend.Search.PickNext.{pick_next_n_unscanned}

abbrev five_dists : List ℕ
five_dists = 50 ∷ 30 ∷ 90 ∷ 10 ∷ 30 ∷ []

top_three : pick_top_n_centroids five_dists 3 ≡ 3 ∷ 1 ∷ 4 ∷ []
unfolding pick_top_n_centroids
top_three = refl

-- Bit 3 of the bitmap is set, so cluster 3 is left out.
next_two : pick_next_n_unscanned five_dists (8 ∷ []) 2 2 ≡ 1 ∷ 4 ∷ []
unfolding pick_next_n_unscanned
next_two = refl
