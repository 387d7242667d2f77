-- ===== src/Limits.antt =====
-- `ResourceLimits` of crates/core/src/lib.rs: the limits that the parser and the
-- content streams read.
use pdfv.Base.{ℕ}

pub record ResourceLimits : Type 0 where
  pub max_file_bytes : ℕ
  pub max_objects : ℕ
  pub max_object_depth : ℕ
  pub max_array_len : ℕ
  pub max_dict_entries : ℕ
  pub max_name_bytes : ℕ
  pub max_string_bytes : ℕ
  pub max_stream_declared_bytes : ℕ
  pub max_stream_decode_bytes : ℕ
  pub memory_source_threshold_bytes : ℕ
  pub max_parse_facts : ℕ
  pub max_content_stream_ops : ℕ
  pub max_content_stream_operand_count : ℕ
  pub max_content_stream_operand_bytes : ℕ
  pub max_content_stream_operator_name_bytes : ℕ
  pub max_inline_image_bytes : ℕ
  pub max_graphics_state_depth : ℕ
