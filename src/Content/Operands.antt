-- ===== src/Content/Operands.antt =====
-- What crates/core/src/content.rs reads from the operands of an operator: names, and the marked
-- content identifier and the reference of a property list.
use mathlib.Core.List.{reverse}
use pdfv.Base.{
  ℕ, ◌+◌, Bytes, Bool, ◌||◌, Option, none, some, List, [], ◌∷◌, leb, ◌==◌, if◌then◌else◌, drop,
}
use pdfv.Int.{ℤ, pos}
use pdfv.Bytes.{is_ascii_digit}
use pdfv.Name.{codes, bytes_eq}
use pdfv.Cos.{ObjectKey}
use pdfv.Source.{find_from}
use pdfv.Lexer.{take_while}
use pdfv.Lexer.Number.{parse_i64}
use pdfv.Content.Token.{Operand, name_operand, integer_operand, composite_operand, keyword_operand}

unfoldable pub first_name_operand : List Operand → Option Bytes
first_name_operand [] = none
first_name_operand (name_operand name ∷ operands) = some name
first_name_operand (_ ∷ operands) = first_name_operand operands

-- The second name among the operands.
unfoldable pub properties_name : List Operand → Option Bytes
unfolding first_name_operand
properties_name [] = none
properties_name (name_operand name ∷ operands) = first_name_operand operands
properties_name (_ ∷ operands) = properties_name operands

abbrev is_ascii_whitespace : ℕ → Bool
is_ascii_whitespace b = b == b' ' || b == b'\t' || b == b'\n' || b == 0x0c || b == b'\r'

-- `bytes[number_start..pos]`: the digits from here, with a sign in front.
abbrev signed_digits : Bytes → Bytes
signed_digits [] = []
signed_digits (b ∷ rest) =
    if b == b'-'
    then b ∷ (take_while is_ascii_digit 0 rest).0
    else (take_while is_ascii_digit 0 (b ∷ rest)).0

unfoldable pub skip_spaces : Bytes → Bytes
skip_spaces [] = []
skip_spaces (b ∷ rest) = if is_ascii_whitespace b then skip_spaces rest else b ∷ rest

unfoldable pub parse_mcid_from_dictionary : Bytes → Option ℤ
unfolding find_from skip_spaces parse_i64 take_while
parse_mcid_from_dictionary bytes = elim (find_from (codes "/MCID") 0 bytes) [
  | none ↦ none
  | some start ↦ parse_i64 (signed_digits (skip_spaces (drop (start + 5) bytes)))
]

abbrev or_later : Option ℤ → Option ℤ → Option ℤ
or_later (some value) later = some value
or_later none later = later

unfoldable pub inline_mcid : List Operand → Option ℤ
unfolding parse_mcid_from_dictionary
inline_mcid [] = none
inline_mcid (composite_operand bytes ∷ operands) =
    or_later (parse_mcid_from_dictionary bytes) (inline_mcid operands)
inline_mcid (_ ∷ operands) = inline_mcid operands

-- The number as a `NonZeroU32`, and the generation as a `u16`.
abbrev key_of : ℤ → ℤ → Option ObjectKey
key_of (pos number) (pos generation) =
    if number == 0 || leb 4294967296 number || leb 65536 generation
    then none
    else some (record { number = number; generation = generation })
key_of _ _ = none

abbrev reference_of : List Operand → Option ObjectKey
reference_of (keyword_operand keyword ∷ integer_operand generation ∷ integer_operand number ∷ _) =
    if bytes_eq keyword (codes "R") then key_of number generation else none
reference_of _ = none

unfoldable pub properties_reference : List Operand → Option ObjectKey
unfolding bytes_eq
properties_reference operands = reference_of (reverse operands)
