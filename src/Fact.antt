-- ===== src/Fact.antt =====
-- `ParseFact`, `XrefFact`, `StreamFact`, `PdfVersion` and `ValidationWarning` of
-- crates/core/src/lib.rs: the constructors that the parser writes, which leaves out the XMP facts. An
-- `Identifier` is its bytes.
use pdfv.Base.{ℕ, Bytes, Bool, Option}
use pdfv.Error.{BoundedText}
use pdfv.Cos.{ObjectKey}

pub record PdfVersion : Type 0 where
  pub major : ℕ
  pub minor : ℕ

-- `ObjectLocation`, whose path is `None` wherever the parser writes one.
pub record ObjectLocation : Type 0 where
  pub object : Option ObjectKey
  pub offset : Option ℕ

pub data XrefFact : Type 0 where
  eol_markers_comply malformed_classic object_stream_parsed : XrefFact
  xref_stream_parsed : ℕ → ℕ → XrefFact
  prev_chain : ℕ → XrefFact
  hybrid_reference : ℕ → XrefFact

pub data StreamFact : Type 0 where
  stream_length : ℕ → ℕ → StreamFact
  keyword_spacing : Bool → Bool → StreamFact
  decoded : ℕ → StreamFact
  filter_decoded : Bytes → ℕ → ℕ → StreamFact
  filter_metadata_mode : Bytes → ℕ → StreamFact

pub data ParseFact : Type 0 where
  header : ℕ → PdfVersion → Bool → ParseFact
  post_eof_data : ℕ → ParseFact
  xref : ObjectLocation → XrefFact → ParseFact
  stream_fact : ObjectKey → StreamFact → ParseFact
  -- detected, the handler, its version and revision, the algorithm, and decrypted
  encryption : Bool → Option Bytes → Option ℕ → Option ℕ → Option Bytes → Bool → ParseFact

pub data ValidationWarning : Type 0 where
  parse_fact_cap_reached : ℕ → ValidationWarning
  general : BoundedText → ValidationWarning
