-- ===== src/Filter/Params.antt =====
-- `DecodeParams` of crates/core/src/parser.rs, and its default.
use pdfv.Base.{ℕ, Bytes, Option, none}

pub record DecodeParams : Type 0 where
  pub predictor : ℕ
  pub colors : ℕ
  pub bits_per_component : ℕ
  pub columns : ℕ
  pub early_change : ℕ
  pub crypt_filter_name : Option Bytes

abbrev pub default_params : DecodeParams
default_params = record {
  predictor = 1;
  colors = 1;
  bits_per_component = 8;
  columns = 1;
  early_change = 1;
  crypt_filter_name = none;
}
