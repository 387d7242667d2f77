-- ===== src/Stream.antt =====
-- The filters of a stream and their parameters, as crates/core/src/parser.rs reads them from the
-- stream dictionary.
pub mod Alignment
use Prim.Native.String.{String}
use pdfv.Base.{
  ℕ, zero, suc, ◌+◌, Bytes, Bool, true, false, ◌&&◌, Option, none, some, List, [], ◌∷◌,
  if◌then◌else◌, get_elem?, replicate,
}
use pdfv.Int.{ℤ}
use pdfv.Name.{codes, bytes_eq}
use pdfv.Filter.Params.{DecodeParams, default_params}
use pdfv.Cos.{
  CosObject, name, array, dictionary, CosArray, nil, cons, Dictionary, StreamData, get, array_get,
}
use pdfv.Cos.Fields.{to_unsigned, integer_from_dictionary}

-- `PdfName::matches`
abbrev pub matches : Bytes → String → Bool
matches bytes value = bytes_eq bytes (codes value)

abbrev or_else : Option ℕ → ℕ → ℕ
or_else none d = d
or_else (some n) d = n

abbrev narrowed : ℕ → Option ℤ → Option ℕ
narrowed modulus none = none
narrowed modulus (some value) = to_unsigned modulus value

module _ {F : Type 0} where
  abbrev pub name_is : Option (CosObject F) → String → Bool
  name_is (some (name n)) value = matches n value
  name_is _ value = false

  abbrev filter_is_crypt : Option (CosObject F) → ℕ → Bool
  filter_is_crypt (some (array filters)) index = name_is (array_get filters index) "Crypt"
  filter_is_crypt filter index = name_is filter "Crypt"

  abbrev names_identity : Option (CosObject F) → Bool
  names_identity (some (dictionary params)) = name_is (get (codes "Name") params) "Identity"
  names_identity _ = false

  abbrev parms_identity : Option (CosObject F) → ℕ → Bool
  parms_identity (some (array params)) index = names_identity (array_get params index)
  parms_identity parms index = names_identity parms

  unfoldable pub is_identity_crypt_filter : Dictionary F → ℕ → Bool
  is_identity_crypt_filter d index =
      filter_is_crypt (get (codes "Filter") d) index
      && parms_identity (get (codes "DecodeParms") d) index

  -- The names of the filter array, without the identity crypt filters. The flag tells whether the
  -- filter at an index is one.
  unfoldable pub filter_names : (ℕ → Bool) → ℕ → CosArray F → List Bytes
  filter_names identity index nil = []
  filter_names identity index (cons (name n) rest) =
      let more = filter_names identity (index + 1) rest in if identity index then more else n ∷ more
  filter_names identity index (cons value rest) = filter_names identity (index + 1) rest

  abbrev filters_of : (ℕ → Bool) → Option (CosObject F) → List Bytes
  filters_of identity (some (name n)) = if identity 0 then [] else n ∷ []
  filters_of identity (some (array values)) = filter_names identity 0 values
  filters_of identity _ = []

  unfoldable pub stream_filters : Dictionary F → List Bytes
  unfolding filter_names is_identity_crypt_filter
  stream_filters d = filters_of (is_identity_crypt_filter d) (get (codes "Filter") d)

  abbrev as_name : Option (CosObject F) → Option Bytes
  as_name (some (name n)) = some n
  as_name _ = none

  unfoldable pub decode_params_from_dictionary : Dictionary F → DecodeParams
  unfolding integer_from_dictionary
  decode_params_from_dictionary d = record {
    predictor = or_else (narrowed 65536 (integer_from_dictionary d "Predictor")) 1;
    colors = or_else (narrowed 65536 (integer_from_dictionary d "Colors")) 1;
    bits_per_component = or_else (narrowed 65536 (integer_from_dictionary d "BitsPerComponent")) 8;
    columns = or_else (narrowed 4294967296 (integer_from_dictionary d "Columns")) 1;
    early_change = or_else (narrowed 256 (integer_from_dictionary d "EarlyChange")) 1;
    crypt_filter_name = as_name (get (codes "Name") d);
  }

  abbrev pub params_of : CosObject F → DecodeParams
  params_of (dictionary params) = decode_params_from_dictionary params
  params_of _ = default_params

  -- `values.iter().take(count)`
  unfoldable pub params_list : ℕ → CosArray F → List DecodeParams
  unfolding decode_params_from_dictionary
  params_list zero values = []
  params_list (suc count) nil = []
  params_list (suc count) (cons value rest) = params_of value ∷ params_list count rest

  abbrev decode_parms_of : Option (CosObject F) → ℕ → List DecodeParams
  decode_parms_of (some (dictionary params)) count = decode_params_from_dictionary params ∷ []
  decode_parms_of (some (array values)) count = params_list count values
  decode_parms_of _ count = replicate count default_params

  unfoldable pub stream_decode_params : Dictionary F → ℕ → List DecodeParams
  unfolding decode_params_from_dictionary params_list
  stream_decode_params d filter_count = decode_parms_of (get (codes "DecodeParms") d) filter_count

-- `self.decode_params.get(index).cloned().unwrap_or_default()`
abbrev pub params_at : List DecodeParams → ℕ → DecodeParams
params_at params index = elim (get_elem? params index) [ none ↦ default_params | some p ↦ p ]

-- The kept filters and their parameters, from `index` on.
unfoldable pub without_crypt : List DecodeParams → ℕ → List Bytes → List Bytes × List DecodeParams
without_crypt params index [] = ([], [])
without_crypt params index (filter ∷ filters) =
    let (names, kept) = without_crypt params (index + 1) filters in
    if matches filter "Crypt"
    then (names, kept)
    else (filter ∷ names, params_at params index ∷ kept)

-- `StreamObject::remove_crypt_filters`
unfoldable pub remove_crypt_filters : StreamData → StreamData
unfolding without_crypt
remove_crypt_filters s =
    let (names, kept) = without_crypt s.decode_params 0 s.filters in
    record s { filters = names; decode_params = kept }
