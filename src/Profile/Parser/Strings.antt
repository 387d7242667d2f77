-- ===== src/Profile/Parser/Strings.antt =====
-- `str::trim`, `str::split_once` and `str::strip_prefix` of the standard library on the bytes of a
-- text.
use mathlib.Core.List.{reverse}
use pdfv.Base.{
  ℕ, zero, suc, ◌+◌, ◌-◌, Bytes, Bool, ◌&&◌, ◌||◌, Option, none, some, [], ◌∷◌, ◌==◌, if◌then◌else◌,
  length, take, drop,
}
use pdfv.Bytes.{within}
use pdfv.Cursor.{is_prefix}
use pdfv.Profile.Texts.{find_text}

-- The white space of Unicode that has one, two and three bytes.
abbrev white_1 : ℕ → Bool
white_1 a = within 9 13 a || a == b' '

abbrev white_2 : ℕ → ℕ → Bool
white_2 a b = a == 0xc2 && (b == 0x85 || b == 0xa0)

abbrev white_3 : ℕ → ℕ → ℕ → Bool
white_3 a b c =
    a == 0xe1 && b == 0x9a && c == 0x80
    || a == 0xe2 && b == 0x80 && (within 0x80 0x8a c || c == 0xa8 || c == 0xa9 || c == 0xaf)
    || a == 0xe2 && b == 0x81 && c == 0x9f
    || a == 0xe3 && b == 0x80 && c == 0x80

-- How many bytes the white space has that the text starts with.
unfoldable pub first_white : Bytes → ℕ
first_white [] = 0
first_white (a ∷ []) = if white_1 a then 1 else 0
first_white (a ∷ b ∷ []) = if white_1 a then 1 else if white_2 a b then 2 else 0
first_white (a ∷ b ∷ c ∷ rest) =
    if white_1 a then 1 else if white_2 a b then 2 else if white_3 a b c then 3 else 0

-- The same at the end of a text that is given backwards.
unfoldable pub last_white : Bytes → ℕ
last_white [] = 0
last_white (a ∷ []) = if white_1 a then 1 else 0
last_white (b ∷ a ∷ []) = if white_1 b then 1 else if white_2 a b then 2 else 0
last_white (c ∷ b ∷ a ∷ rest) =
    if white_1 c then 1 else if white_2 b c then 2 else if white_3 a b c then 3 else 0

-- `skip` counts the bytes of a white space that are still to be passed.
unfoldable pub drop_white : (Bytes → ℕ) → ℕ → Bytes → Bytes
drop_white white skip [] = []
drop_white white (suc skip) (b ∷ rest) = drop_white white skip rest
drop_white white zero (b ∷ rest) =
    let n = white (b ∷ rest) in
    let more = drop_white white (n - 1) rest in if n == 0 then b ∷ rest else more

unfoldable pub trim : Bytes → Bytes
unfolding drop_white first_white last_white
trim value = reverse (drop_white last_white 0 (reverse (drop_white first_white 0 value)))

abbrev split_at : Bytes → Bytes → Option ℕ → Option (Bytes × Bytes)
split_at value separator none = none
split_at value separator (some index) =
    some (take index value, drop (index + length separator) value)

unfoldable pub split_once : Bytes → Bytes → Option (Bytes × Bytes)
unfolding find_text
split_once value separator = split_at value separator (find_text separator value)

unfoldable pub strip_prefix : Bytes → Bytes → Option Bytes
unfolding is_prefix
strip_prefix value expected =
    if is_prefix expected value then some (drop (length expected) value) else none
