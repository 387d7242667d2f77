-- ===== src/Name/Order.antt =====
-- `compare_bytes` as an order.
use Prim.Native.Nat.{Ordering}
use pdfv.Base.{Bytes, [], ◌∷◌, ◌≡◌, ◌↔◌, refl, arith}
use pdfv.Name.{compare_bytes}

pub compare_bytes-eq_iff : (xs ys : Bytes) → (compare_bytes xs ys ≡ Ordering.eq) ↔ (xs ≡ ys)
unfolding compare_bytes
compare_bytes-eq_iff (x ∷ xs) (y ∷ ys) = ground (arith, compare_bytes-eq_iff xs ys)
compare_bytes-eq_iff _ _ = ground arith

pub compare_bytes-gt :
    (xs ys : Bytes) → compare_bytes xs ys ≡ Ordering.gt → compare_bytes ys xs ≡ Ordering.lt
unfolding compare_bytes
compare_bytes-gt (x ∷ xs) (y ∷ ys) h = ground (arith, compare_bytes-gt xs ys)
compare_bytes-gt [] [] h = cc
compare_bytes-gt [] (y ∷ ys) h = cc
compare_bytes-gt (x ∷ xs) [] h = refl

pub compare_bytes_trans :
    (xs ys zs : Bytes)
    → compare_bytes xs ys ≡ Ordering.lt
    → compare_bytes ys zs ≡ Ordering.lt
    → compare_bytes xs zs ≡ Ordering.lt
unfolding compare_bytes
compare_bytes_trans (x ∷ xs) (y ∷ ys) (z ∷ zs) h k = ground (arith, compare_bytes_trans xs ys zs)
compare_bytes_trans [] (y ∷ ys) (z ∷ zs) h k = refl
compare_bytes_trans xs ys zs h k = ground arith
