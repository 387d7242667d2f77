-- ===== src/Lib.antt =====
-- A verification library for pdfv, a validator of PDF/A files: its parser, its content streams and
-- the evaluation of its rules.
--
-- The program reads a PDF file into COS objects (crates/core/src/parser.rs), decodes the streams
-- that it needs through a pipeline of filters, collects facts and warnings on the way, and gives the
-- document to the validation. The validation builds model objects from the document, for which it
-- summarises content streams (crates/core/src/content.rs), and evaluates the rules of a profile on
-- them (crates/core/src/profile.rs). This library models the parser, the content streams, and the
-- parser and the evaluator of rule expressions; limits, errors and facts come from
-- crates/core/src/lib.rs. The model objects, the reading of profile files, metadata, encryption,
-- reports and the command line are not modelled.
--
-- The files and the code:
-- - Base, Int, Float, Name, Bytes: shared names, signed integers, real numbers as a parameter, byte
--   strings as keys, and the tests on bytes (`is_ws`, `is_delimiter`, `decode_hex_digit`).
-- - Error, Limits, Fact: `ParseError`, `ResourceLimits`, `ParseFact` and their parts.
-- - Cursor, Lexer, Object: `ByteParser`, whose state is its position in the source (a `Cursor`) and
--   its facts and warnings (a `Log`). Cursor has the skipping functions, Lexer the tokens, and Object
--   `parse_object` with arrays, dictionaries, numbers and references.
-- - Source, Body: searches in the source, `parse_header`, `parse_stream`, `parse_indirect_object`.
--   ObjectStream: `parse_object_stream`. Trailer: `parse_xref_and_trailer`, `parse_post_eof_fact`.
-- - Log: `push_fact` and the functions that report. Xref: cross-reference streams.
-- - Cos, Stream: COS objects with their typed fields, and the filters of a stream dictionary.
-- - Decode: `DecoderRegistry` and `decoded_bytes_with_registry`. Filter: the decoders ASCIIHex,
--   ASCII85, RunLength and LZW, and the PNG and TIFF predictors.
-- - Content: `summarize_content_stream`. Content.Token and Content.Tokenizer are its tokenizer, whose
--   state is a Cursor; InlineImage reads inline images; Summary has the types of a summary and the
--   state of the loop (`Interpreter`); Operators is `classify_operator`, with Kind, Operands and
--   Marks; Summarize is the loop.
-- - Profile: `DefaultRuleEvaluator`. Rule and Value are rule expressions and their values, Texts and
--   Functions the functions on them, Objects the property paths over the validation model, Budget
--   the monad that counts instructions, Args and Eval the evaluator. Meaning is a big-step semantics
--   of rule expressions to compare it with. Parser is `ExprParser`, whose state is the text that is
--   left: Tokens and Builtins are its tokens and names, Lambda is `LambdaPredicate`, and Grammar has
--   the levels of the grammar. Failure and Identifiers have the errors, `BoundedText` and
--   `Identifier` of crates/core/src/lib.rs.
-- - Tests: runs of the model at concrete inputs.
--
-- Conventions. A `u8`, `usize` or `u64` is a native number: checked arithmetic compares with 2 ^ 64
-- (a 64-bit target), and where a theorem needs the bound of a type it is a hypothesis. A fallible
-- function gives `ok`, `err` with the source's error, or `diverged` when a loop of the model runs out
-- of fuel. `parse_object` has fuel for the levels of nesting that are left, and its loops for the
-- bytes that are left, which is enough since each entry takes a byte; the loops of Trailer have fuel
-- for the bytes that are left as well. `decode_lzw` has a unit for each bit of the input, and
-- RunLength one for each byte. Other loops recur on the rest of their input. The texts of errors are
-- kept where they are literals.
--
-- The evaluator recurs on the expression. An operand is given to `eval_binary` and `eval_call` as its
-- evaluation, a function of the instruction count, which runs where the source calls `eval`. The
-- loops of Content and of the parser of rule expressions have fuel for the bytes that are left; each
-- round takes a byte. That parser panics where the source slices a `str` inside a character; the depth
-- of the machine's stack is not modelled.
--
-- Parameters: the inflaters of the crate flate2, each as the list of reads that it answers for an
-- input, the reading of a real number, the operations of `f64` in rule expressions, and the compiled
-- patterns of the crate regex. The model objects of the validation are an interface
-- (`Profile.Objects`). A spill file is read as the bytes that it holds; errors of the file system,
-- and the search of a spill file in chunks, are not modelled. The loop over the top-level objects,
-- the object store and `parse_document` are not modelled.
pub mod Base
pub mod Error
pub mod Int
pub mod Limits
pub mod Bytes
pub mod Filter
pub mod Name
pub mod Float
pub mod Cos
pub mod Stream
pub mod Fact
pub mod Decode
pub mod Tests
pub mod Body
pub mod Trailer
pub mod ObjectStream
pub mod Source
pub mod Log
pub mod Xref
pub mod Object
pub mod Lexer
pub mod Cursor
pub mod Profile
pub mod Content
