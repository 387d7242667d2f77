-- ===== src/Cursor/Moves.antt =====
-- How the skipping functions move: over some bytes of the source, to the bytes after them.
use pdfv.Base.{
  ℕ, zero, suc, ◌+◌, ◌≤◌, Bytes, Bool, true, false, some, [], ◌∷◌, ◌≡◌, refl, sym, ap, ◌∙◌, inl,
  inr, arith, ◌==◌, if◌then◌else◌, length, drop, length-drop, Bool-cases,
}
use pdfv.Bytes.{is_ws}
use pdfv.Error.Meets.{Meets, returned, Meets-ensure}
use pdfv.Cursor.{
  Cursor, at, position, remaining, cursor_at, is_prefix, starts_with, advance, consume_bytes,
  is_eol, eof_marker, skip_ws, skip_line, skip_blank, skip_ws_and_comments, skip_required_ws,
}

-- The second cursor is the first one after some bytes.
pub data Moves : Cursor → Cursor → Type 0 where
  here : {c : Cursor} → Moves c c
  over :
      {p b : ℕ} {rest : Bytes} {d : Cursor} → Moves (at (p + 1) rest) d → Moves (at p (b ∷ rest)) d

pub Moves-trans : {c d e : Cursor} → Moves c d → Moves d e → Moves c e
Moves-trans here k = k
Moves-trans (over h) k = over (Moves-trans h k)

pub Moves-at : (c : Cursor) {d : Cursor} → Moves (at (position c) (remaining c)) d → Moves c d
Moves-at (at p rest) m = m

pub Moves-length : {c d : Cursor} → Moves c d → length (remaining d) ≤ length (remaining c)
Moves-length here = omega arith
Moves-length (over h) = omega (arith, Moves-length h)

pub Moves-if : (b : Bool) {c d e : Cursor} → Moves c d → Moves c e → Moves c (if b then d else e)
Moves-if true h k = h
Moves-if false h k = k

pub Moves-drop :
    (n p : ℕ) (rest : Bytes) → n ≤ length rest → Moves (at p rest) (at (p + n) (drop n rest))
Moves-drop zero p rest h = let same : p + 0 ≡ p = omega arith in rw (same) here
Moves-drop (suc n) p [] h = absurd (omega arith)
Moves-drop (suc n) p (b ∷ rest) h =
    let same : p + suc n ≡ p + 1 + n = omega arith in
    rw (same) (over (Moves-drop n (p + 1) rest (omega arith)))

Moves-is_drop :
    {c d : Cursor}
    → Moves c d
    → (n : ℕ) × (position d ≡ position c + n) × (remaining d ≡ drop n (remaining c))
Moves-is_drop here = (0, omega arith, refl)
Moves-is_drop (over h) = let (n, at_n, same) = Moves-is_drop h in (suc n, omega arith, same)

drop-nil : (n : ℕ) → drop {A = ℕ} n [] ≡ []
drop-nil zero = refl
drop-nil (suc n) = refl

drop-drop : (m n : ℕ) (xs : Bytes) → drop n (drop m xs) ≡ drop (m + n) xs
drop-drop zero n xs = ap (λ k. drop k xs) (omega arith)
drop-drop (suc m) n [] = drop-nil n ∙ sym (drop-nil (suc m + n))
drop-drop (suc m) n (x ∷ xs) =
    let same : suc m + n ≡ suc (m + n) = omega arith in rw (same) (drop-drop m n xs)

-- A cursor stays a position of the source that it started in.
pub Moves-cursor_at :
    (source : Bytes) (p : ℕ) (d : Cursor)
    → Moves (cursor_at source p) d
    → d ≡ cursor_at source (position d)
Moves-cursor_at source p (at q rest) m =
    let (n, at_n, same) = Moves-is_drop m in
    ap (at q) (same ∙ drop-drop p n source ∙ ap (λ k. drop k source) (sym at_n))

pub skip_ws-Moves : (p : ℕ) (rest : Bytes) → Moves (at p rest) (skip_ws p rest)
unfolding skip_ws
skip_ws-Moves p [] = here
skip_ws-Moves p (b ∷ rest) = Moves-if (is_ws b) (over (skip_ws-Moves (p + 1) rest)) (here)

pub skip_line-Moves : (p : ℕ) (rest : Bytes) → Moves (at p rest) (skip_line p rest)
unfolding skip_line
skip_line-Moves p [] = here
skip_line-Moves p (b ∷ rest) = Moves-if (is_eol b) (over here) (over (skip_line-Moves (p + 1) rest))

skip_blank-Moves :
    (comment : Bool) (p : ℕ) (rest : Bytes) → Moves (at p rest) (skip_blank comment p rest)
unfolding skip_blank
skip_blank-Moves comment p [] = here
skip_blank-Moves true p (b ∷ rest) = over (skip_blank-Moves _ (p + 1) rest)
skip_blank-Moves false p (b ∷ rest) =
    Moves-if (is_ws b) (over (skip_blank-Moves false (p + 1) rest)) (
      Moves-if (is_prefix eof_marker (b ∷ rest)) here
        (Moves-if (b == b'%') (over (skip_blank-Moves true (p + 1) rest)) here))

pub skip_ws_and_comments-Moves : (c : Cursor) → Moves c (skip_ws_and_comments c)
unfolding skip_ws_and_comments
skip_ws_and_comments-Moves (at p rest) = skip_blank-Moves false p rest

pub skip_required_ws-Moves : (c d : Cursor) → skip_required_ws c ≡ some d → Moves c d
unfolding skip_required_ws
skip_required_ws-Moves (at p []) d h = cc
skip_required_ws-Moves (at p (b ∷ rest)) d h = elim (Bool-cases (is_ws b)) [
  | inl ws ↦ let e : skip_ws (p + 1) rest ≡ d = cc in rw (← e) (over (skip_ws-Moves (p + 1) rest))
  | inr other ↦ cc
]

pub is_prefix-length :
    (expected rest : Bytes) → is_prefix expected rest ≡ true → length expected ≤ length rest
unfolding is_prefix
is_prefix-length [] rest h = omega arith
is_prefix-length (e ∷ expected) [] h = cc
is_prefix-length (e ∷ expected) (b ∷ rest) h = elim (Bool-cases (e == b)) [
  | inl same ↦
      let k : is_prefix expected rest ≡ true = cc in omega (arith, is_prefix-length expected rest k)
  | inr other ↦ cc
]

consumed :
    (expected : Bytes) (c : Cursor)
    → length expected ≤ length (remaining c)
    → let d = advance (length expected) c in
      Moves c d × (length (remaining d) + length expected ≤ length (remaining c))
consumed expected (at p rest) size = (
  Moves-drop (length expected) p rest size,
  omega (arith, length-drop (length expected) rest, size),
)

-- A token that is there is passed over.
pub consume_bytes-Meets :
    (expected : Bytes) (c : Cursor)
    → Meets
        (λ (d : Cursor).
          Moves c d × (length (remaining d) + length expected ≤ length (remaining c)))
        (consume_bytes expected c)
unfolding consume_bytes
consume_bytes-Meets expected c =
    Meets-ensure (starts_with expected c) _ _
      λ found. returned (consumed expected c (is_prefix-length expected (remaining c) found))
