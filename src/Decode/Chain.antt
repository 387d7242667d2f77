-- ===== src/Decode/Chain.antt =====
-- The facts that the pipeline of crates/core/src/parser.rs reports.
use mathlib.Core.List.{append_assoc, append-nil}
use pdfv.Base.{
  ℕ, ◌+◌, ◌≤◌, Bytes, Bool, true, false, List, [], ◌∷◌, ◌++◌, ◌≡◌, refl, sym, ap, ◌∙◌, ◌⊎◌, inl,
  inr, arith, length,
}
use pdfv.Limits.{ResourceLimits}
use pdfv.Error.{ok, ok_or, unsupported_filter, from_bytes, >>=-eq-ok, ok-injective}
use pdfv.Fact.{StreamFact, filter_decoded, filter_metadata_mode}
use pdfv.Cos.{StreamRange}
use pdfv.Filter.Params.{DecodeParams}
use pdfv.Filter.Output.{enforce_decoded_len}
use pdfv.Stream.{params_at}
use pdfv.Decode.{
  DecoderOutput, StreamDecoder, DecoderRegistry, decoder, filter_identifier, filter_fact,
  decode_filters, raw_bytes, decoded_bytes_with_registry,
}

-- One fact for each filter, in order: it names the filter, it starts from the length that the filter
-- before it left, no length is above `max`, and the last one is `final`.
abbrev pub FactChain : ℕ → ℕ → List Bytes → List StreamFact → ℕ → Type 0
FactChain max len [] [] final = len ≡ final
FactChain max len (filter ∷ filters) (fact ∷ facts) final =
    (out : ℕ) × ((fact ≡ filter_decoded filter len out) ⊎ (fact ≡ filter_metadata_mode filter out))
    × (out ≤ max)
    × FactChain max out filters facts final
FactChain max len _ _ final = ⊥

filter_identifier-inv : (filter n : Bytes) → filter_identifier filter ≡ ok n → n ≡ filter
unfolding filter_identifier
filter_identifier-inv filter n h = ground arith

enforce_decoded_len-inv :
    (len max : ℕ) (u : Unit {0}) → enforce_decoded_len len max ≡ ok u → len ≤ max
unfolding enforce_decoded_len
enforce_decoded_len-inv len max u h = ground arith

filter_fact-cases :
    (metadata_mode : Bool) (n filter : Bytes) (len out : ℕ)
    → n ≡ filter
    → (filter_fact metadata_mode n len out ≡ filter_decoded filter len out)
      ⊎ (filter_fact metadata_mode n len out ≡ filter_metadata_mode filter out)
unfolding filter_fact
filter_fact-cases true n filter len out same = inr (ap (λ m. filter_metadata_mode m out) same)
filter_fact-cases false n filter len out same = inl (ap (λ m. filter_decoded m len out) same)

module _ (registry : DecoderRegistry) (limits : ResourceLimits) (params : List DecodeParams) where
  decode_filters-chain :
      (filters : List Bytes) (index : ℕ) (current : Bytes) (facts : List StreamFact)
      (r : Bytes × List StreamFact)
      → decode_filters registry limits params index current facts filters ≡ ok r
      → (new : List StreamFact) × (r.1 ≡ facts ++ new)
        × FactChain limits.max_stream_decode_bytes (length current) filters new (length r.0)
  unfolding decode_filters
  decode_filters-chain [] index current facts r h =
      let e = ok-injective h in ([], rw (← e) (sym (append-nil facts)), rw (← e) refl)
  decode_filters-chain (filter ∷ filters) index current facts r h =
      let (d, found, h₁) =
        >>=-eq-ok {A = StreamDecoder}
          (ok_or (decoder registry filter) (unsupported_filter (from_bytes filter))) _ h in
      let (output, decoded, h₂) =
        >>=-eq-ok {A = DecoderOutput} (d current (params_at params index) limits) _ h₁ in
      let (u, small, h₃) =
        >>=-eq-ok {A = Unit {0}} (enforce_decoded_len (length output.bytes) _) _ h₂ in
      let (n, named, h₄) = >>=-eq-ok {A = Bytes} (filter_identifier filter) _ h₃ in
      let out : ℕ = length output.bytes in
      let fact = filter_fact output.metadata_mode n (length current) out in
      let (new, same, chain) =
        decode_filters-chain filters (index + 1) output.bytes (facts ++ fact ∷ []) r h₄ in
      let is : n ≡ filter = filter_identifier-inv filter n named in
      let shown = filter_fact-cases output.metadata_mode n filter (length current) out is in
      (
        fact ∷ new,
        same ∙ append_assoc facts (fact ∷ []) new,
        (out, shown, enforce_decoded_len-inv out _ u small, chain),
      )

  -- What a successful decoding reports: a fact for each filter, from the length of the raw bytes to
  -- that of the result, no length above the limit, and the result itself within it.
  pub decoded_bytes_with_registry-chain :
      (source : Bytes) (range : StreamRange) (filters : List Bytes) (bytes : Bytes)
      (facts : List StreamFact)
      → decoded_bytes_with_registry registry limits source range filters params ≡ ok (bytes, facts)
      → (raw : Bytes) × (raw_bytes source range ≡ ok raw)
        × FactChain limits.max_stream_decode_bytes (length raw) filters facts (length bytes)
        × (length bytes ≤ limits.max_stream_decode_bytes)
  unfolding decoded_bytes_with_registry
  decoded_bytes_with_registry-chain source range filters bytes facts h =
      let (raw, sliced, h₁) = >>=-eq-ok _ _ h in
      let (r, run, h₂) = >>=-eq-ok {A = Bytes × List StreamFact} _ _ h₁ in
      let (u, small, h₃) = >>=-eq-ok _ _ h₂ in
      let (new, same, chain) = decode_filters-chain filters 0 raw [] r run in
      let e = ok-injective h₃ in
      let facts_are : new ≡ facts = sym same ∙ ap (λ (p : Bytes × List StreamFact). p.1) e in
      let bytes_are : r.0 ≡ bytes = ap (λ (p : Bytes × List StreamFact). p.0) e in
      (
        raw,
        sliced,
        rw (← facts_are, ← bytes_are) chain,
        rw (← bytes_are) (enforce_decoded_len-inv (length r.0) _ u small),
      )
