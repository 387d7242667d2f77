-- ===== src/Filter/Predictor/Paeth.antt =====
-- `paeth_predictor` and the distances of its neighbours to the estimate.
use pdfv.Base.{ℕ, ◌+◌, ◌≤◌, ◌<◌, ◌⊎◌, ◌≡◌, arith}
use pdfv.Int.{pos, sub_ℕ, ◌-ℤ◌, abs}
use pdfv.Filter.Predictor.{paeth_predictor}

-- How far a neighbour is from `left + up - up_left`.
abbrev pub distance : ℕ → ℕ → ℕ → ℕ → ℕ
distance left up up_left neighbour = abs (sub_ℕ (left + up) up_left -ℤ pos neighbour)

-- The predictor returns one of the three neighbours, none is nearer to the estimate, and an earlier
-- one in the order left, up, upper left is chosen over a later one that is as near.
pub paeth_predictor_nearest :
    (left up up_left : ℕ)
    → let p = paeth_predictor left up up_left in
      let d = distance left up up_left in
      ((p ≡ left) × (d left ≤ d up) × (d left ≤ d up_left))
      ⊎ (((p ≡ up) × (d up < d left) × (d up ≤ d up_left))
          ⊎ ((p ≡ up_left) × (d up_left < d up) × (d up_left < d left)))
unfolding paeth_predictor
paeth_predictor_nearest left up up_left = ground arith
