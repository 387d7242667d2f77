-- ===== src/Cos.antt =====
-- The COS objects of crates/core/src/parser.rs, with `ObjectKey` of crates/core/src/lib.rs. The
-- type of real numbers is a parameter. A stream object is its dictionary and the other fields of
-- `StreamObject`.
pub mod Laws
pub mod Fields
use Prim.Native.Nat.{Ordering}
use pdfv.Base.{ℕ, zero, suc, ◌+◌, Bytes, Bool, List, Option, none, some, if◌then◌else◌}
use pdfv.Int.{ℤ}
use pdfv.Name.{bytes_eq, compare_bytes}
use pdfv.Filter.Params.{DecodeParams}

-- The number is a `NonZeroU32`, and the generation a `u16`.
pub record ObjectKey : Type 0 where
  pub number : ℕ
  pub generation : ℕ

pub record StreamRange : Type 0 where
  pub start : ℕ
  pub end : ℕ

pub record StreamData : Type 0 where
  pub raw_range : StreamRange
  pub declared_length : Option ℕ
  pub discovered_length : ℕ
  pub filters : List Bytes
  pub decode_params : List DecodeParams
  pub raw_source : Bytes
  pub stream_keyword_crlf_compliant : Bool
  pub endstream_keyword_eol_compliant : Bool

mutual
  pub data CosObject (F : Type 0) : Type 0 where
    null : CosObject F
    boolean : Bool → CosObject F
    integer : ℤ → CosObject F
    real : F → CosObject F
    name : Bytes → CosObject F
    string : Bytes → CosObject F
    array : CosArray F → CosObject F
    dictionary : Dictionary F → CosObject F
    stream : Dictionary F → StreamData → CosObject F
    reference : ObjectKey → CosObject F

  pub data CosArray (F : Type 0) : Type 0 where
    nil : CosArray F
    cons : CosObject F → CosArray F → CosArray F

  -- A `BTreeMap`: the entries in the order of their keys.
  pub data Dictionary (F : Type 0) : Type 0 where
    empty : Dictionary F
    entry : Bytes → CosObject F → Dictionary F → Dictionary F

module _ {F : Type 0} where
  unfoldable pub as_dictionary : CosObject F → Option (Dictionary F)
  as_dictionary (dictionary d) = some d
  as_dictionary (stream d s) = some d
  as_dictionary _ = none

  unfoldable pub insert : Bytes → CosObject F → Dictionary F → Dictionary F
  insert key value empty = entry key value empty
  insert key value (entry k v rest) = elim (compare_bytes key k) [
    | Ordering.lt ↦ entry key value (entry k v rest)
    | Ordering.eq ↦ entry k value rest
    | Ordering.gt ↦ entry k v (insert key value rest)
  ]

  unfoldable pub get : Bytes → Dictionary F → Option (CosObject F)
  get key empty = none
  get key (entry k v rest) = if bytes_eq key k then some v else get key rest

  unfoldable pub dict_len : Dictionary F → ℕ
  dict_len empty = 0
  dict_len (entry k v rest) = suc (dict_len rest)

  -- `Vec::push`, `Vec::len` and `Vec::get` on arrays.
  unfoldable pub push : CosArray F → CosObject F → CosArray F
  push nil value = cons value nil
  push (cons v values) value = cons v (push values value)

  abbrev pub array_len : CosArray F → ℕ
  array_len nil = 0
  array_len (cons v values) = suc (array_len values)

  abbrev pub array_get : CosArray F → ℕ → Option (CosObject F)
  array_get nil i = none
  array_get (cons v values) zero = some v
  array_get (cons v values) (suc i) = array_get values i
