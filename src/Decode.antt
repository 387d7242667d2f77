-- ===== src/Decode.antt =====
-- The filter pipeline of crates/core/src/parser.rs: `DecoderRegistry`, the decoders that only wrap
-- a function, and `StreamObject::decoded_bytes_with_registry`. The inflaters of the crate flate2
-- are parameters: each is the list of the reads that it answers.
pub mod Chain
use pdfv.Base.{
  ℕ, zero, suc, ◌+◌, ◌-◌, ◌≤◌, Bytes, String, Bool, true, false, ◌&&◌, ◌||◌, not, Option, none,
  some, List, [], ◌∷◌, ◌++◌, ltb, leb, ◌==◌, if◌then◌else◌, length, take, drop,
}
use pdfv.Bytes.{is_ascii_digit, within}
use pdfv.Name.{codes, bytes_eq}
use pdfv.Limits.{ResourceLimits}
use pdfv.Error.{
  ParseError, Result, ok, err, diverged, ◌>>=◌, ◌>>◌, ensure, text, from_bytes, malformed,
  stream_decode, limit_exceeded, unsupported_filter, arithmetic_overflow, checked_add, ok_or,
  u64_modulus,
}
use pdfv.Fact.{StreamFact, filter_decoded, filter_metadata_mode}
use pdfv.Cos.{StreamRange}
use pdfv.Filter.Params.{DecodeParams, default_params}
use pdfv.Filter.Output.{enforce_decoded_len}
use pdfv.Filter.AsciiHex.{ascii_hex_decode}
use pdfv.Filter.Ascii85.{ascii85_decode}
use pdfv.Filter.RunLength.{run_length_decode}
use pdfv.Filter.Lzw.{decode_lzw}
use pdfv.Filter.Predictor.{apply_predictor}
use pdfv.Stream.{matches, params_at}

pub record DecoderOutput : Type 0 where
  pub bytes : Bytes
  pub metadata_mode : Bool

-- The trait `StreamDecoder`.
abbrev pub StreamDecoder : Type 0
StreamDecoder = Bytes → DecodeParams → ResourceLimits → Result DecoderOutput

-- What a reader answers: some bytes, or an error with its text. After the last answer it is at the
-- end, and answers with no bytes.
pub data Read : Type 0 where
  chunk : Bytes → Read
  fails : String → Read

-- An inflater: the answers for an input.
abbrev pub Inflater : Type 0
Inflater = Bytes → List Read

unfoldable pub read_limited : ℕ → Bytes → List Read → Result Bytes
read_limited max output [] = ok output
read_limited max output (fails message ∷ reads) = err (stream_decode (text message))
read_limited max output (chunk [] ∷ reads) = ok output
read_limited max output (chunk (b ∷ bytes) ∷ reads) = do
  next_len ←
      checked_add (length output) (length (b ∷ bytes)) (arithmetic_overflow "decoded stream length")
  ensure (not (ltb max next_len)) (limit_exceeded "max_stream_decode_bytes")
  read_limited max (output ++ b ∷ bytes) reads

abbrev or_else {ℓ} : {A : Type ℓ} → Result A → Result A → Result A
or_else (ok a) r = ok a
or_else (err e) r = r
or_else diverged r = diverged

unfoldable pub decode_flate_limited : Inflater → Inflater → Bytes → ℕ → Result Bytes
unfolding read_limited
decode_flate_limited zlib deflate bytes max =
    or_else (read_limited max [] (zlib bytes)) (read_limited max [] (deflate bytes))

abbrev plain : Bytes → DecoderOutput
plain bytes = record { bytes = bytes; metadata_mode = false }

unfoldable pub flate_decoder : Inflater → Inflater → StreamDecoder
unfolding decode_flate_limited
flate_decoder zlib deflate input params limits = do
  decoded ← decode_flate_limited zlib deflate input limits.max_stream_decode_bytes
  bytes ← apply_predictor decoded params limits.max_stream_decode_bytes
  ok (plain bytes)

unfoldable pub lzw_decoder : StreamDecoder
lzw_decoder input params limits = do
  decoded ← decode_lzw input params.early_change limits.max_stream_decode_bytes
  bytes ← apply_predictor decoded params limits.max_stream_decode_bytes
  ok (plain bytes)

abbrev bounded_decoder : (ℕ → Bytes → Result Bytes) → StreamDecoder
bounded_decoder decode input params limits = do
  bytes ← decode limits.max_stream_decode_bytes input
  ok (plain bytes)

abbrev is_identity : Option Bytes → Bool
is_identity none = true
is_identity (some n) = matches n "Identity"

unfoldable pub crypt_decoder : StreamDecoder
crypt_decoder input params limits =
    if is_identity params.crypt_filter_name
    then ok (plain input)
    else err (unsupported_filter (text "Crypt"))

unfoldable pub metadata_mode_decoder : StreamDecoder
metadata_mode_decoder input params limits = ok (record { bytes = input; metadata_mode = true })

-- `DecoderRegistry`: the latest registration of a name counts.
abbrev pub DecoderRegistry : Type 0
DecoderRegistry = List (Bytes × StreamDecoder)

abbrev register : DecoderRegistry → Bytes → StreamDecoder → DecoderRegistry
register registry n decoder = (n, decoder) ∷ registry

abbrev register_many : DecoderRegistry → List String → StreamDecoder → DecoderRegistry
register_many registry [] decoder = registry
register_many registry (n ∷ names) decoder =
    register_many (register registry (codes n) decoder) names decoder

unfoldable pub decoder : DecoderRegistry → Bytes → Option StreamDecoder
decoder [] filter = none
decoder ((n, d) ∷ registry) filter = if bytes_eq filter n then some d else decoder registry filter

-- `DecoderRegistry::new`
unfoldable pub default_registry : Inflater → Inflater → DecoderRegistry
default_registry zlib deflate =
    let r₁ = register_many [] ("FlateDecode" ∷ "Fl" ∷ []) (flate_decoder zlib deflate) in
    let r₂ = register_many r₁ ("ASCIIHexDecode" ∷ "AHx" ∷ []) (bounded_decoder ascii_hex_decode) in
    let r₃ = register_many r₂ ("ASCII85Decode" ∷ "A85" ∷ []) (bounded_decoder ascii85_decode) in
    let r₄ = register_many r₃ ("RunLengthDecode" ∷ "RL" ∷ []) (bounded_decoder run_length_decode) in
    let r₅ = register_many r₄ ("LZWDecode" ∷ "LZW" ∷ []) lzw_decoder in
    let r₆ = register_many r₅ ("Crypt" ∷ []) crypt_decoder in
    register_many r₆ ("DCTDecode" ∷ "JPXDecode" ∷ "JBIG2Decode" ∷ "CCITTFaxDecode" ∷ [])
      metadata_mode_decoder

abbrev is_identifier_byte : ℕ → Bool
is_identifier_byte b =
    within b'a' b'z' b
    || within b'A' b'Z' b
    || is_ascii_digit b
    || b == b'-'
    || b == b'_'
    || b == b'.'
    || b == b':'

abbrev all_identifier : Bytes → Bool
all_identifier [] = true
all_identifier (b ∷ bytes) = is_identifier_byte b && all_identifier bytes

-- `Identifier::new` on the lossy text. A byte that is not ASCII gives a character that is not ASCII,
-- which is refused either way, so the test is made on the bytes.
unfoldable pub filter_identifier : Bytes → Result Bytes
filter_identifier filter =
    if ltb 0 (length filter) && leb (length filter) 128 && all_identifier filter
    then ok filter
    else err (malformed (text "stream filter name is not a valid identifier"))

unfoldable pub filter_fact : Bool → Bytes → ℕ → ℕ → StreamFact
filter_fact metadata_mode filter input_len output_len =
    if metadata_mode
    then filter_metadata_mode filter output_len
    else filter_decoded filter input_len output_len

-- The loop over the filters: `index` of them are done, and their facts are in `facts`.
unfoldable pub decode_filters :
    DecoderRegistry
    → ResourceLimits
    → List DecodeParams
    → ℕ
    → Bytes
    → List StreamFact
    → List Bytes
    → Result (Bytes × List StreamFact)
decode_filters registry limits params index current facts [] = ok (current, facts)
decode_filters registry limits params index current facts (filter ∷ filters) = do
  decode ← ok_or (decoder registry filter) (unsupported_filter (from_bytes filter))
  output ← decode current (params_at params index) limits
  enforce_decoded_len (length output.bytes) limits.max_stream_decode_bytes
  n ← filter_identifier filter
  let fact = filter_fact output.metadata_mode n (length current) (length output.bytes)
  decode_filters registry limits params (index + 1) output.bytes (facts ++ fact ∷ []) filters

-- `StreamObject::raw_bytes`, on the source that the stream refers to.
unfoldable pub raw_bytes : Bytes → StreamRange → Result Bytes
raw_bytes source range =
    if leb range.start range.end && leb range.end (length source)
    then ok (take (range.end - range.start) (drop range.start source))
    else err (malformed (text "stream raw range out of bounds"))

-- `StreamObject::decoded_bytes_with_registry`
unfoldable pub decoded_bytes_with_registry :
    DecoderRegistry
    → ResourceLimits
    → Bytes
    → StreamRange
    → List Bytes
    → List DecodeParams
    → Result (Bytes × List StreamFact)
unfolding decode_filters raw_bytes filter_fact
decoded_bytes_with_registry registry limits source range filters params = do
  raw ← raw_bytes source range
  (bytes, facts) ← decode_filters registry limits params 0 raw [] filters
  enforce_decoded_len (length bytes) limits.max_stream_decode_bytes
  ok (bytes, facts)
