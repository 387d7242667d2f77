-- ===== src/Cos/Laws.antt =====
-- Dictionaries of COS objects after an insertion: the order of the keys, and the number of entries.
use Prim.Native.Nat.{Ordering}
use pdfv.Base.{◌+◌, ◌≤◌, Bytes, ◌≡◌, arith}
use pdfv.Name.{compare_bytes}
use pdfv.Name.Order.{compare_bytes-eq_iff, compare_bytes-gt, compare_bytes_trans}
use pdfv.Cos.{CosObject, Dictionary, empty, entry, insert, dict_len}

module _ {F : Type 0} where
  -- Every key of the dictionary is after `key`.
  abbrev pub Above : Bytes → Dictionary F → Type 0
  Above key empty = Unit
  Above key (entry k v rest) = (compare_bytes key k ≡ Ordering.lt) × Above key rest

  abbrev pub IsSorted : Dictionary F → Type 0
  IsSorted empty = Unit
  IsSorted (entry k v rest) = Above k rest × IsSorted rest

  Above-trans :
      (low key : Bytes) (d : Dictionary F)
      → compare_bytes low key ≡ Ordering.lt
      → Above key d
      → Above low d
  Above-trans low key empty h a = tt
  Above-trans low key (entry k v rest) h a =
      (compare_bytes_trans low key k h a.0, Above-trans low key rest h a.1)

  Above-insert :
      (low key : Bytes) (value : CosObject F) (d : Dictionary F)
      → compare_bytes low key ≡ Ordering.lt
      → Above low d
      → Above low (insert key value d)
  unfolding insert
  Above-insert low key value empty h a = (h, tt)
  Above-insert low key value (entry k v rest) h a =
      ground (arith, Above-insert low key value rest h)

  -- An insertion keeps the keys in strictly ascending order.
  pub insert-IsSorted :
      (key : Bytes) (value : CosObject F) (d : Dictionary F)
      → IsSorted d
      → IsSorted (insert key value d)
  unfolding insert
  insert-IsSorted key value empty s = (tt, tt)
  insert-IsSorted key value (entry k v rest) s = ground (
    arith,
    compare_bytes-gt key k,
    Above-trans key k rest,
    Above-insert k key value rest,
    insert-IsSorted key value rest,
    compare_bytes-eq_iff key k,
  )

  pub dict_len-insert :
      (key : Bytes) (value : CosObject F) (d : Dictionary F)
      → dict_len (insert key value d) ≤ dict_len d + 1
  unfolding dict_len insert
  dict_len-insert key value empty = omega arith
  dict_len-insert key value (entry k v rest) = ground (arith, dict_len-insert key value rest)
