-- ===== src/Filter/Predictor/Filters.antt =====
-- One byte of the PNG predictor: the five filters and the neighbours that they read.
use pdfv.Base.{
  ℕ, zero, suc, ◌+◌, ◌-◌, ◌/◌, ◌%◌, ◌<◌, Bytes, IsByte, IsBytes, Bool, true, false, some, [], ◌∷◌,
  ◌≡◌, refl, arith, ◌==◌, if◌then◌else◌, length, get_elem?, String,
}
use pdfv.Error.{ok}
use pdfv.Filter.Predictor.{paeth_predictor, png_predictor_value, png_neighbour, wrapping_add}

-- What a filter predicts from the neighbours.
abbrev pub prediction : ℕ → ℕ → ℕ → ℕ → ℕ
prediction filter left up up_left =
    if filter == 0
    then 0
    else if filter == 1
    then left
    else if filter == 2
    then up
    else if filter == 3
    then (left + up) / 2
    else paeth_predictor left up up_left

-- The encoder stores the difference to the prediction, modulo 256.
abbrev pub residual : ℕ → ℕ → ℕ
residual byte predicted = (byte + 256 - predicted) % 256

pub paeth_predictor-IsByte :
    (left up up_left : ℕ)
    → IsByte left
    → IsByte up
    → IsByte up_left
    → IsByte (paeth_predictor left up up_left)
unfolding paeth_predictor
paeth_predictor-IsByte left up up_left p q r = ground arith

pub wrapping_add-residual :
    (byte predicted : ℕ)
    → IsByte byte
    → IsByte predicted
    → wrapping_add (residual byte predicted) predicted ≡ byte
wrapping_add-residual byte predicted p q = omega arith

-- Each of the five filters undoes its residual.
pub png_predictor_value-residual :
    (filter byte left up up_left : ℕ)
    → filter < 5
    → IsByte byte
    → IsByte left
    → IsByte up
    → IsByte up_left
    → png_predictor_value filter (residual byte (prediction filter left up up_left)) left up up_left
      ≡ ok byte
unfolding png_predictor_value
png_predictor_value-residual filter byte left up up_left f b p q r = ground (
  arith,
  paeth_predictor-IsByte left up up_left p q r,
  wrapping_add-residual byte (paeth_predictor left up up_left) b,
)

pub get_elem?-IsByte :
    (xs : Bytes) (n : ℕ)
    → IsBytes xs
    → n < length xs
    → (b : ℕ) × (get_elem? xs n ≡ some b) × IsByte b
get_elem?-IsByte [] n h l = absurd (omega arith)
get_elem?-IsByte (x ∷ xs) zero h l = (x, refl, h.0)
get_elem?-IsByte (x ∷ xs) (suc n) h l = get_elem?-IsByte xs n h.1 (omega arith)

-- The byte at a distance back, or 0 where the row has none.
abbrev pub neighbour : Bool → Bytes → ℕ → ℕ
neighbour inside output distance =
    if inside
    then (elim (get_elem? output (length output - distance)) [ some b ↦ b | _ ↦ 0 ])
    else 0

pub png_neighbour-eq_ok :
    (missing : String) (inside : Bool) (output : Bytes) (distance : ℕ)
    → IsBytes output
    → 0 < distance
    → (inside ≡ true → 0 < length output)
    → (png_neighbour missing inside output distance ≡ ok (neighbour inside output distance))
      × IsByte (neighbour inside output distance)
unfolding png_neighbour
png_neighbour-eq_ok missing false output distance h d l = (refl, omega arith)
png_neighbour-eq_ok missing true output distance h d l =
    let (b, e, small) =
      get_elem?-IsByte output (length output - distance) h (omega (arith, l refl)) in
    rw e (refl, small)
