-- ===== src/Log.antt =====
-- The facts and warnings that the parser of crates/core/src/parser.rs collects: the fields
-- `parse_facts` and `warnings` of `ByteParser`, `push_fact`, `push_xref_chain_facts`, `decode_stream`.
pub mod Cap
use pdfv.Base.{
  ℕ, Bytes, Bool, true, false, Option, none, some, List, [], ◌∷◌, ◌++◌, ltb, if◌then◌else◌, length,
}
use pdfv.Limits.{ResourceLimits}
use pdfv.Error.{Result, ok, err, ◌>>=◌}
use pdfv.Fact.{
  ObjectLocation, XrefFact, prev_chain, hybrid_reference, StreamFact, ParseFact, xref, stream_fact,
  ValidationWarning, parse_fact_cap_reached, general,
}
use pdfv.Cos.{ObjectKey, Dictionary, StreamData}
use pdfv.Cos.Fields.{optional_non_negative_offset}
use pdfv.Decode.{DecoderRegistry, decoded_bytes_with_registry}

pub record Log : Type 0 where
  pub parse_facts : List ParseFact
  pub warnings : List ValidationWarning

abbrev pub is_cap_warning : ValidationWarning → Bool
is_cap_warning (parse_fact_cap_reached cap) = true
is_cap_warning (general message) = false

abbrev pub has_cap_warning : List ValidationWarning → Bool
has_cap_warning [] = false
has_cap_warning (w ∷ warnings) = if is_cap_warning w then true else has_cap_warning warnings

unfoldable pub push_fact : ResourceLimits → ParseFact → Log → Log
push_fact limits fact log =
    if ltb (length log.parse_facts) limits.max_parse_facts
    then record log { parse_facts = log.parse_facts ++ fact ∷ [] }
    else if has_cap_warning log.warnings
    then log
    else record log {
      warnings = log.warnings ++ parse_fact_cap_reached limits.max_parse_facts ∷ [];
    }

-- A loop of `push_fact`.
unfoldable pub push_facts : ResourceLimits → List ParseFact → Log → Log
unfolding push_fact
push_facts limits [] log = log
push_facts limits (fact ∷ facts) log = push_facts limits facts (push_fact limits fact log)

abbrev push_offset : ResourceLimits → ObjectLocation → (ℕ → XrefFact) → Option ℕ → Log → Log
push_offset limits section fact none log = log
push_offset limits section fact (some n) log = push_fact limits (xref section (fact n)) log

unfoldable pub push_xref_chain_facts :
    {F : Type 0} → ResourceLimits → Option ObjectKey → ℕ → Dictionary F → Log → Result Log
push_xref_chain_facts limits object offset dictionary log = do
  let section : ObjectLocation = record { object = object; offset = some offset }
  prev ← optional_non_negative_offset dictionary "Prev"
  let after_prev = push_offset limits section prev_chain prev log
  hybrid ← optional_non_negative_offset dictionary "XRefStm"
  ok (push_offset limits section hybrid_reference hybrid after_prev)

abbrev stream_facts : ObjectKey → List StreamFact → List ParseFact
stream_facts key [] = []
stream_facts key (fact ∷ facts) = stream_fact key fact ∷ stream_facts key facts

-- The decoded bytes, and the log with a fact for each filter.
unfoldable pub decode_stream :
    DecoderRegistry → ResourceLimits → ObjectKey → StreamData → Log → Result (Bytes × Log)
unfolding decoded_bytes_with_registry push_facts
decode_stream registry limits key stream log = do
  (bytes, facts) ←
      decoded_bytes_with_registry registry limits stream.raw_source stream.raw_range stream.filters
        stream.decode_params
  ok (bytes, push_facts limits (stream_facts key facts) log)
