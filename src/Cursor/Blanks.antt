-- ===== src/Cursor/Blanks.antt =====
-- The text that `skip_ws_and_comments` of crates/core/src/parser.rs passes over, as a language.
use mathlib.Core.List.{append_assoc, append-nil}
use mathlib.Core.Path.{subst}
use pdfv.Base.{
  ℕ, ◌+◌, Bytes, true, false, not, [], ◌∷◌, ◌++◌, ◌≡◌, ◌↔◌, ◌⊎◌, inl, inr, refl, sym, ap, ◌∙◌,
  arith, ◌==◌, length, length-append, All, Bool-cases, ==_iff,
}
use pdfv.Bytes.{is_ws}
use pdfv.Cursor.{
  at, position, remaining, is_prefix, is_eol, eof_marker, skip_blank, skip_ws_and_comments,
}

-- The text of a comment after the percent sign: in one line, and not the marker of the end of the
-- file.
abbrev pub IsComment : Bytes → Type 0
IsComment body = All (λ b. is_eol b ≡ false) body × (is_prefix eof_marker (b'%' ∷ body) ≡ false)

-- White space, and comments up to the byte that ends their line, in any order.
pub data Blanks : Bytes → Type 0 where
  nothing : Blanks []
  space : {b : ℕ} {blanks : Bytes} → is_ws b ≡ true → Blanks blanks → Blanks (b ∷ blanks)
  comment :
      (body : Bytes) (e : ℕ) {blanks : Bytes}
      → IsComment body
      → is_eol e ≡ true
      → Blanks blanks
      → Blanks (b'%' ∷ (body ++ e ∷ blanks))

-- A token, or the marker of the end of the file, or no text.
abbrev pub IsToken : Bytes → Type 0
IsToken [] = Unit
IsToken (b ∷ rest) =
    (is_ws b ≡ false) × (((b == b'%') ≡ false) ⊎ (is_prefix eof_marker (b ∷ rest) ≡ true))

-- Blanks up to a token, or blanks and a comment whose line the text does not end.
pub data Skipped : Bytes → Bytes → Type 0 where
  to_token : {blanks rest : Bytes} → Blanks blanks → IsToken rest → Skipped blanks rest
  to_end :
      {blanks : Bytes} (body : Bytes)
      → Blanks blanks
      → IsComment body
      → Skipped (blanks ++ b'%' ∷ body) []

space-not_percent : (b : ℕ) → is_ws b ≡ true → (b == b'%') ≡ false
unfolding is_ws
space-not_percent b h = ground arith

is_prefix-append :
    (expected text more : Bytes)
    → is_prefix expected text ≡ true
    → is_prefix expected (text ++ more) ≡ true
unfolding is_prefix
is_prefix-append [] text more h = refl
is_prefix-append (m ∷ expected) [] more h = cc
is_prefix-append (m ∷ expected) (b ∷ text) more h =
    ground (arith, is_prefix-append expected text more)

-- A word in one line is a prefix of a line, or none of the text.
is_prefix-line :
    (expected text : Bytes) (e : ℕ) (more : Bytes)
    → All (λ b. is_eol b ≡ false) expected
    → is_eol e ≡ true
    → is_prefix expected (text ++ e ∷ more) ≡ true
    → is_prefix expected text ≡ true
unfolding is_prefix
is_prefix-line [] text e more h k l = refl
is_prefix-line (m ∷ expected) [] e more h k l = elim (Bool-cases (m == e)) [
  | inl same ↦ let equal = (==_iff m e).0 same in cc
  | inr other ↦ cc (rw (other) at l)
]
is_prefix-line (m ∷ expected) (b ∷ text) e more h k l = elim (Bool-cases (m == b)) [
  | inl same ↦ rw same (is_prefix-line expected text e more h.1 k (rw (same) at l))
  | inr other ↦ cc (rw (other) at l)
]

-- The loop over the line of a comment.
line-ended :
    (body : Bytes) (p e : ℕ) (more : Bytes)
    → All (λ b. is_eol b ≡ false) body
    → is_eol e ≡ true
    → skip_blank true p (body ++ e ∷ more) ≡ skip_blank false (p + length body + 1) more
unfolding skip_blank
line-ended [] p e more h k =
    ap (λ ended. skip_blank (not ended) (p + 1) more) k
    ∙ ap (λ q. skip_blank false q more) (omega arith)
line-ended (b ∷ body) p e more h k =
    ap (λ ended. skip_blank (not ended) (p + 1) (body ++ e ∷ more)) h.0
    ∙ line-ended body (p + 1) e more h.1 k
    ∙ ap (λ q. skip_blank false q more) (omega arith)

line-unended :
    (body : Bytes) (p : ℕ)
    → All (λ b. is_eol b ≡ false) body
    → skip_blank true p body ≡ at (p + length body) []
unfolding skip_blank
line-unended [] p h = let same : p + 0 ≡ p = omega arith in rw same refl
line-unended (b ∷ body) p h =
    ap (λ ended. skip_blank (not ended) (p + 1) body) h.0
    ∙ line-unended body (p + 1) h.1
    ∙ ap (λ q. at q []) (omega arith)

marker-line : All (λ b. is_eol b ≡ false) eof_marker
marker-line = (refl, (refl, (refl, (refl, (refl, tt)))))

percent-not_space : is_ws b'%' ≡ false
unfolding is_ws
percent-not_space = refl

-- The loop at a comment.
at_comment :
    (p : ℕ) (rest : Bytes)
    → is_prefix eof_marker (b'%' ∷ rest) ≡ false
    → skip_blank false p (b'%' ∷ rest) ≡ skip_blank true (p + 1) rest
unfolding skip_blank
at_comment p rest h = rw (percent-not_space, h) refl

-- The loop passes over blanks, whatever comes after them.
skip_blank_past :
    {blanks : Bytes} (p : ℕ) (rest : Bytes)
    → Blanks blanks
    → skip_blank false p (blanks ++ rest) ≡ skip_blank false (p + length blanks) rest
unfolding skip_blank
skip_blank_past p rest nothing = ap (λ q. skip_blank false q rest) (omega arith)
skip_blank_past p rest (space {b} {blanks} ws more) =
    rw ws (skip_blank_past (p + 1) rest more ∙ ap (λ q. skip_blank false q rest) (omega arith))
skip_blank_past p rest (comment body e {blanks} (line, unmarked) ends more) =
    let unmarked' : is_prefix eof_marker (b'%' ∷ (body ++ e ∷ (blanks ++ rest))) ≡ false =
      elim (Bool-cases (is_prefix eof_marker (b'%' ∷ (body ++ e ∷ (blanks ++ rest))))) [
        | inl marked ↦
            let at_line =
              is_prefix-line eof_marker (b'%' ∷ body) e (blanks ++ rest) marker-line ends marked in
            cc
        | inr absent ↦ absent
      ] in
    ap (λ text. skip_blank false p (b'%' ∷ text)) (append_assoc body (e ∷ blanks) rest)
    ∙ at_comment p (body ++ e ∷ (blanks ++ rest)) unmarked'
    ∙ line-ended body (p + 1) e (blanks ++ rest) line ends
    ∙ skip_blank_past (p + 1 + length body + 1) rest more
    ∙ ap (λ q. skip_blank false q rest) (omega (arith, length-append body (e ∷ blanks)))

skip_blank_at_token : (p : ℕ) (rest : Bytes) → IsToken rest → skip_blank false p rest ≡ at p rest
unfolding skip_blank
skip_blank_at_token p [] h = refl
skip_blank_at_token p (b ∷ rest) (solid, inl other) =
    elim (Bool-cases (is_prefix eof_marker (b ∷ rest))) [
      | inl marked ↦ rw (solid, marked) refl
      | inr absent ↦ rw (solid, absent, other) refl
    ]
skip_blank_at_token p (b ∷ rest) (solid, inr marked) = rw (solid, marked) refl

skip_blank_complete :
    (p : ℕ) {skipped rest : Bytes}
    → Skipped skipped rest
    → skip_blank false p (skipped ++ rest) ≡ at (p + length skipped) rest
skip_blank_complete p (to_token {rest} blanks token) =
    skip_blank_past p rest blanks ∙ skip_blank_at_token _ rest token
skip_blank_complete p (to_end {blanks} body b (line, unmarked)) =
    ap (skip_blank false p) (append-nil (blanks ++ b'%' ∷ body))
    ∙ skip_blank_past p (b'%' ∷ body) b
    ∙ at_comment (p + length blanks) body unmarked
    ∙ line-unended body (p + length blanks + 1) line
    ∙ ap (λ q. at q []) (omega (arith, length-append blanks (b'%' ∷ body)))

Skipped-space :
    {b : ℕ} {skipped rest : Bytes}
    → is_ws b ≡ true
    → Skipped skipped rest
    → Skipped (b ∷ skipped) rest
Skipped-space ws (to_token blanks token) = to_token (space ws blanks) token
Skipped-space ws (to_end body blanks c) = to_end body (space ws blanks) c

Skipped-comment :
    (body : Bytes) (e : ℕ) {skipped rest : Bytes}
    → IsComment body
    → is_eol e ≡ true
    → Skipped skipped rest
    → Skipped (b'%' ∷ (body ++ e ∷ skipped)) rest
Skipped-comment body e c ends (to_token blanks token) =
    to_token (comment body e c ends blanks) token
Skipped-comment body e c ends (to_end {blanks} last b l) =
    subst (λ (text : Bytes). Skipped (b'%' ∷ text) [])
      (append_assoc body (e ∷ blanks) (b'%' ∷ last)) (to_end last (comment body e c ends b) l)

-- A text is what is skipped, and the rest.
abbrev Split : Bytes → Type 0
Split text = (skipped : Bytes) × (rest : Bytes) × (text ≡ skipped ++ rest) × Skipped skipped rest

-- A text is a line, or a line with its end and a text that splits.
abbrev Line : Bytes → Type 0
Line text =
    (body : Bytes) × All (λ b. is_eol b ≡ false) body
    × ((text ≡ body)
        ⊎ ((e : ℕ) × (more : Bytes) × (text ≡ body ++ e ∷ more) × (is_eol e ≡ true) × Split more))

longer_line : (b : ℕ) (text : Bytes) → is_eol b ≡ false → Line text → Line (b ∷ text)
longer_line b text inside (body, line, inl whole) =
    (b ∷ body, (inside, line), inl (ap (λ t. b ∷ t) whole))
longer_line b text inside (body, line, inr (e, more, parts, ends, split)) =
    (b ∷ body, (inside, line), inr (e, more, ap (λ t. b ∷ t) parts, ends, split))

comment_split :
    (text : Bytes) → is_prefix eof_marker (b'%' ∷ text) ≡ false → Line text → Split (b'%' ∷ text)
comment_split text unmarked (body, line, inl whole) =
    let unmarked' : is_prefix eof_marker (b'%' ∷ body) ≡ false = rw (whole) at unmarked in
    (
      b'%' ∷ body,
      [],
      ap (λ t. b'%' ∷ t) (whole ∙ sym (append-nil body)),
      to_end body nothing (line, unmarked'),
    )
comment_split text unmarked (body, line, inr (e, more, parts, ends, (skipped, rest, same, s))) =
    let unmarked' : is_prefix eof_marker (b'%' ∷ body) ≡ false =
      elim (Bool-cases (is_prefix eof_marker (b'%' ∷ body))) [
        | inl marked ↦
            let at_text = is_prefix-append eof_marker (b'%' ∷ body) (e ∷ more) marked in
            cc (rw (parts) at unmarked)
        | inr absent ↦ absent
      ] in
    (
      b'%' ∷ (body ++ e ∷ skipped),
      rest,
      ap (λ t. b'%' ∷ t)
          (parts ∙ ap (λ t. body ++ e ∷ t) same ∙ sym (append_assoc body (e ∷ skipped) rest)),
      Skipped-comment body e (line, unmarked') ends s,
    )

split_text : (text : Bytes) → Split text × Line text
split_text [] = (([], [], refl, to_token nothing tt), ([], tt, inl refl))
split_text (b ∷ text) =
    let (split, line) = split_text text in
    (
      elim (Bool-cases (is_ws b)) [
        | inl ws ↦
            let (skipped, rest, same, s) = split in
            (b ∷ skipped, rest, ap (λ t. b ∷ t) same, Skipped-space ws s)
        | inr solid ↦ elim (Bool-cases (is_prefix eof_marker (b ∷ text))) [
          | inl marked ↦ ([], b ∷ text, refl, to_token nothing (solid, inr marked))
          | inr unmarked ↦ elim (Bool-cases (b == b'%')) [
            | inl percent ↦
                let same : b ≡ b'%' = (==_iff b b'%').0 percent in
                rw same (comment_split text (rw (same) at unmarked) line)
            | inr other ↦ ([], b ∷ text, refl, to_token nothing (solid, inl other))
          ]
        ]
      ],
      elim (Bool-cases (is_eol b)) [
        | inl ends ↦ ([], tt, inr (b, text, refl, ends, split))
        | inr inside ↦ longer_line b text inside line
      ],
    )

-- From a position, skipping leads to another one and the rest of the text exactly when the text
-- between them is white space and comments that end their lines and do not begin with the marker
-- `%%EOF`, up to a token, that marker or the end; or such a text and a last comment whose line is not
-- ended.
pub skip_ws_and_comments_iff :
    (p q : ℕ) (text rest : Bytes)
    → (skip_ws_and_comments (at p text) ≡ at q rest) ↔ (
        (skipped : Bytes) × (text ≡ skipped ++ rest)
        × (q ≡ p + length skipped)
        × Skipped skipped rest)
unfolding skip_ws_and_comments
skip_ws_and_comments_iff p q text rest = (
  λ h.
      let (skipped, rest', same, s) = (split_text text).0 in
      let reached : at q rest ≡ at (p + length skipped) rest' =
        sym h ∙ ap (skip_blank false p) same ∙ skip_blank_complete p s in
      let left : rest ≡ rest' = ap remaining reached in
      (skipped, rw left same, ap position reached, rw left s),
  λ (skipped, same, at_q, s).
      ap (skip_blank false p) same ∙ skip_blank_complete p s ∙ ap (λ n. at n rest) (sym at_q),
)
