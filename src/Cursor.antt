-- ===== src/Cursor.antt =====
-- The place of the parser in its source: the fields `source` and `pos` of `ByteParser` in
-- crates/core/src/parser.rs, and the functions that look at the next bytes or skip some.
pub mod Moves
pub mod Blanks
use pdfv.Base.{
  ℕ, zero, suc, ◌+◌, Bytes, Bool, true, false, not, ◌&&◌, ◌||◌, Option, none, some, List, [], ◌∷◌,
  ◌==◌, if◌then◌else◌, drop, length,
}
use pdfv.Bytes.{is_ws}
use pdfv.Name.{codes}
use pdfv.Error.{Result, ok, err, ◌>>=◌, ◌>>◌, ensure, malformed, with_number}

-- The position, and the bytes from there to the end of the source.
pub data Cursor : Type 0 where
  at : ℕ → Bytes → Cursor

abbrev pub position : Cursor → ℕ
position (at p rest) = p

abbrev pub remaining : Cursor → Bytes
remaining (at p rest) = rest

-- `parser.pos = offset`
abbrev pub cursor_at : Bytes → ℕ → Cursor
cursor_at source offset = at offset (drop offset source)

abbrev pub peek_byte : Cursor → Option ℕ
peek_byte (at p []) = none
peek_byte (at p (b ∷ rest)) = some b

abbrev pub next_byte : Cursor → Option (ℕ × Cursor)
next_byte (at p []) = none
next_byte (at p (b ∷ rest)) = some (b, at (p + 1) rest)

unfoldable pub is_prefix : Bytes → Bytes → Bool
is_prefix [] rest = true
is_prefix (e ∷ expected) [] = false
is_prefix (e ∷ expected) (b ∷ rest) = e == b && is_prefix expected rest

abbrev pub starts_with : Bytes → Cursor → Bool
starts_with expected c = is_prefix expected (remaining c)

abbrev pub advance : ℕ → Cursor → Cursor
advance n c = at ((position c) + n) (drop n (remaining c))

unfoldable pub consume_bytes : Bytes → Cursor → Result Cursor
unfolding is_prefix
consume_bytes expected c = do
  ensure (starts_with expected c) (malformed (with_number "unexpected token at" (position c)))
  ok (advance (length expected) c)

abbrev pub is_eol : ℕ → Bool
is_eol b = b == b'\n' || b == b'\r'

abbrev pub eof_marker : Bytes
eof_marker = codes "%%EOF"

-- `while self.peek_byte().is_some_and(is_ws)`
unfoldable pub skip_ws : ℕ → Bytes → Cursor
skip_ws p [] = at p []
skip_ws p (b ∷ rest) =
    let blank = skip_ws (p + 1) rest in if is_ws b then blank else at p (b ∷ rest)

unfoldable pub skip_line : ℕ → Bytes → Cursor
skip_line p [] = at p []
skip_line p (b ∷ rest) =
    let line = skip_line (p + 1) rest in if is_eol b then at (p + 1) rest else line

-- The loops of `skip_ws_and_comments` in one pass: `comment` says that the loop of `skip_line` runs.
unfoldable pub skip_blank : Bool → ℕ → Bytes → Cursor
unfolding is_prefix
skip_blank comment p [] = at p []
skip_blank true p (b ∷ rest) = skip_blank (not (is_eol b)) (p + 1) rest
skip_blank false p (b ∷ rest) =
    let blank = skip_blank false (p + 1) rest in
    let comment = skip_blank true (p + 1) rest in
    if is_ws b
    then blank
    else if is_prefix eof_marker (b ∷ rest)
    then at p (b ∷ rest)
    else if b == b'%'
    then comment
    else at p (b ∷ rest)

unfoldable pub skip_ws_and_comments : Cursor → Cursor
unfolding skip_blank
skip_ws_and_comments c = skip_blank false (position c) (remaining c)

unfoldable pub skip_xref_spaces : ℕ → Bytes → Cursor
skip_xref_spaces p [] = at p []
skip_xref_spaces p (b ∷ rest) =
    let blank = skip_xref_spaces (p + 1) rest in
    if b == b'\t' || b == b' ' then blank else at p (b ∷ rest)

-- `None` for the error, which leaves the position as it is.
unfoldable pub skip_required_ws : Cursor → Option Cursor
unfolding skip_ws
skip_required_ws (at p []) = none
skip_required_ws (at p (b ∷ rest)) = if is_ws b then some (skip_ws (p + 1) rest) else none
