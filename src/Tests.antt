-- ===== src/Tests.antt =====
-- Test runs of the model, and the theorems at concrete inputs.
mod Filters
mod Syntax
mod Streams
mod Rules
mod Contents
mod Expressions
use pdfv.Base.{ℕ, Bytes, Bool, true, Option, some}
use pdfv.Limits.{ResourceLimits}
use pdfv.Float.{Float}

abbrev pub test_limits : ResourceLimits
test_limits = record {
  max_file_bytes = 1000;
  max_objects = 10;
  max_object_depth = 4;
  max_array_len = 3;
  max_dict_entries = 3;
  max_name_bytes = 8;
  max_string_bytes = 8;
  max_stream_declared_bytes = 100;
  max_stream_decode_bytes = 100;
  memory_source_threshold_bytes = 100;
  max_parse_facts = 2;
  max_content_stream_ops = 4;
  max_content_stream_operand_count = 3;
  max_content_stream_operand_bytes = 20;
  max_content_stream_operator_name_bytes = 4;
  max_inline_image_bytes = 10;
  max_graphics_state_depth = 1;
}

-- Every text is the number 0.
abbrev pub test_float : Float
test_float = record {
  F64 = ℕ;
  parse_f64 = λ (text : Bytes). some 0;
  is_finite = λ (value : ℕ). true;
}
