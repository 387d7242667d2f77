-- ===== src/Profile/Texts.antt =====
-- `str::find`, `str::contains`, `str::split` and `str::get` of the standard library on bytes, and
-- the functions of crates/core/src/profile.rs on texts: `split_string` and the regex helpers.
pub mod Splits
use pdfv.Base.{
  ℕ, zero, suc, ◌+◌, ◌-◌, Bytes, Bool, true, false, ◌||◌, Option, none, some, List, [], ◌∷◌, inl,
  inr, ltb, leb, ◌==◌, if◌then◌else◌, length, drop, get_elem?,
}
use pdfv.Int.{ℤ, pos, negsuc}
use pdfv.Bytes.{within}
use pdfv.Error.{text, from_bytes}
use pdfv.Cursor.{is_prefix}
use pdfv.Profile.Failure.{
  Checked, ok, err, ◌>>=◌, mismatch, over_budget, profile, invalid_field, bounded_text,
}
use pdfv.Profile.Arithmetic.{RegexEngine}
use pdfv.Profile.Value.{ModelValue}

abbrev pub max_profile_string_bytes : ℕ
max_profile_string_bytes = 4096

abbrev later : Option ℕ → Option ℕ
later none = none
later (some index) = some (suc index)

-- `str::find`
unfoldable pub find_text : Bytes → Bytes → Option ℕ
unfolding is_prefix
find_text needle [] = if is_prefix needle [] then some 0 else none
find_text needle (b ∷ rest) =
    let after = find_text needle rest in if is_prefix needle (b ∷ rest) then some 0 else later after

abbrev is_found : Option ℕ → Bool
is_found none = false
is_found (some index) = true

-- `str::contains`
unfoldable pub contains_text : Bytes → Bytes → Bool
unfolding find_text
contains_text haystack needle = is_found (find_text needle haystack)

-- `str::get(start..)`, which wants `start` at the boundary of a character.
abbrev is_boundary : Option ℕ → Bool
is_boundary none = false
is_boundary (some byte) = if within 0x80 0xbf byte then false else true

unfoldable pub get_from : Bytes → ℕ → Option Bytes
get_from value start =
    if start == 0 || start == length value || is_boundary (get_elem? value start)
    then some (drop start value)
    else none

-- Puts one more byte in front of the first part.
abbrev onto_first : ℕ → List Bytes → List Bytes
onto_first b [] = (b ∷ []) ∷ []
onto_first b (part ∷ parts) = (b ∷ part) ∷ parts

-- `str::split`. `skip` counts the bytes of a separator that are still to be passed.
unfoldable pub split_text : Bytes → ℕ → Bytes → List Bytes
split_text separator skip [] = [] ∷ []
split_text separator (suc skip) (b ∷ rest) = split_text separator skip rest
split_text separator zero (b ∷ rest) =
    let from_here = onto_first b (split_text separator 0 rest) in
    let passed = [] ∷ split_text separator (length separator - 1) rest in
    if is_prefix separator (b ∷ rest) then passed else from_here

module _ {R : Type 0} where
  -- The loop of `split_string` over the parts, with the number of values so far.
  unfoldable pub push_parts : ℕ → ℕ → List Bytes → Checked (List (ModelValue R))
  unfolding bounded_text
  push_parts max_array_len count [] = ok []
  push_parts max_array_len count (part ∷ parts) =
      let next = (do
        value ← bounded_text part max_profile_string_bytes
        values ← push_parts max_array_len (count + 1) parts
        ok (ModelValue.string value ∷ values)) in
      if leb max_array_len count then err (over_budget "split_parts") else next

  unfoldable pub split_string : Bytes → Bytes → ℕ → Checked (List (ModelValue R))
  unfolding push_parts split_text is_prefix
  split_string value [] max_array_len = mismatch "split separator must not be empty"
  split_string value (b ∷ separator) max_array_len =
      push_parts max_array_len 0 (split_text (b ∷ separator) 0 value)

-- An index, or -1.
abbrev pub index_or_minus_one : Option ℕ → ℤ
index_or_minus_one none = negsuc 0
index_or_minus_one (some index) = pos index

module _ (engine : RegexEngine) where
  open engine use {Regex, build, is_match, find}

  -- `BoundedText::new(error, 512).unwrap_or_else(|_| "invalid regex")`
  abbrev regex_reason : Bytes → Checked Regex
  regex_reason error =
      if ltb 512 (length error)
      then err (profile (invalid_field "regex" (text "invalid regex")))
      else err (profile (invalid_field "regex" (from_bytes error)))

  unfoldable pub regex : Bytes → Bytes → Checked Regex
  regex pattern_text haystack =
      if ltb 512 (length pattern_text) || ltb 4096 (length haystack)
      then err (over_budget "regex")
      else elim (build pattern_text) [ inl error ↦ regex_reason error | inr compiled ↦ ok compiled ]

  unfoldable pub regex_is_match : Bytes → Bytes → Checked Bool
  unfolding regex
  regex_is_match pattern_text haystack = do
    compiled ← regex pattern_text haystack
    ok (is_match compiled haystack)

  unfoldable pub regex_find_index : Bytes → Bytes → Checked ℤ
  unfolding regex
  regex_find_index pattern_text haystack = do
    compiled ← regex pattern_text haystack
    ok (index_or_minus_one (find compiled haystack))
