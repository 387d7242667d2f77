-- ===== src/Content/InlineImage/Progress.antt =====
-- Where an inline image of crates/core/src/content.rs leaves the cursor.
use pdfv.Base.{
  ℕ, zero, suc, ◌+◌, ◌<◌, Bytes, Bool, true, false, ◌&&◌, Option, none, some, [], ◌∷◌, ◌≡◌, arith,
  ltb, length, drop,
}
use pdfv.Bytes.{is_ws}
use pdfv.Name.{codes}
use pdfv.Limits.{ResourceLimits}
use pdfv.Float.{Float}
use pdfv.Error.{Result}
use pdfv.Error.Meets.{Meets, returned, raised, Meets-bind, Meets-mono, Meets-if}
use pdfv.Cursor.{Cursor, at, remaining, is_prefix}
use pdfv.Cursor.Moves.{Moves, over, Moves-trans, Moves-drop, is_prefix-length}
use pdfv.Content.Token.{Token}
use pdfv.Content.Tokenizer.Progress.{Takes, next_token-Meets}
use pdfv.Content.InlineImage.{
  ImageEntries, ends_token, image_data_loop, consume_inline_image_data, is_image_data, after_entry,
  image_entries, InlineImageSummary, parse_inline_image,
}

-- The mark EI that is found lies in the bytes.
past_mark :
    (p b : ℕ) (rest : Bytes) (test : Bool)
    → (is_prefix (codes "EI") (b ∷ rest) && test) ≡ true
    → Moves (at p (b ∷ rest)) (at (p + 2) (drop 1 rest))
past_mark p b rest test h =
    Moves-drop 2 p (b ∷ rest) (is_prefix-length (codes "EI") (b ∷ rest) (ground arith))

image_data_loop-Meets :
    (limits : ResourceLimits) (after_ws : Bool) (scanned p : ℕ) (rest : Bytes)
    → Meets (Moves (at p rest)) (image_data_loop limits after_ws scanned p rest)
unfolding image_data_loop
image_data_loop-Meets limits after_ws scanned p [] = raised
image_data_loop-Meets limits after_ws scanned p (b ∷ rest) =
    Meets-if (ltb limits.max_inline_image_bytes scanned) (λ _. raised)
      λ _.
        Meets-if (is_prefix (codes "EI") (b ∷ rest) && after_ws && ends_token (drop 1 rest))
          (λ found.
            returned (past_mark p b rest (after_ws && ends_token (drop 1 rest)) (ground arith)))
          λ _.
            Meets-mono (image_data_loop-Meets limits (is_ws b) (scanned + 1) (p + 1) rest)
              (λ d m. over m)

consume_inline_image_data-Meets :
    (limits : ResourceLimits) (c : Cursor) → Meets (Moves c) (consume_inline_image_data limits c)
unfolding consume_inline_image_data
consume_inline_image_data-Meets limits (at p []) = image_data_loop-Meets limits false 0 p []
consume_inline_image_data-Meets limits (at p (b ∷ rest)) =
    Meets-if (is_ws b)
      (λ _. Meets-mono (image_data_loop-Meets limits true 0 (p + 1) rest) (λ d m. over m))
      (λ _. image_data_loop-Meets limits false 0 p (b ∷ rest))

module _ (float : Float) (limits : ResourceLimits) (h : float.parse_f64 [] ≡ none) where
  after_entry-Meets :
      (again : Option Bytes → ImageEntries → Cursor → Result (ImageEntries × Cursor))
      (key : Option Bytes) (values : ImageEntries) (c : Cursor) (r : Option Token × Cursor)
      → Takes float limits c r
      → ((key : Option Bytes) (values : ImageEntries) (d : Cursor)
          → length (remaining d) < length (remaining c)
          → Meets (λ (s : ImageEntries × Cursor). Moves d s.1) (again key values d))
      → Meets
          (λ (s : ImageEntries × Cursor). Moves c s.1)
          (after_entry float limits again key values r)
  after_entry-Meets again key values c (none, after) moved k = returned moved
  after_entry-Meets again key values c (some token, after) ahead k =
      Meets-if (is_image_data token) (λ _. returned ahead.0)
        λ _. Meets-mono (k _ _ after ahead.1) (λ s m. Moves-trans ahead.0 m)

  image_entries-Meets :
      (fuel : ℕ) (key : Option Bytes) (values : ImageEntries) (c : Cursor)
      → length (remaining c) < fuel
      → Meets
          (λ (s : ImageEntries × Cursor). Moves c s.1)
          (image_entries float limits fuel key values c)
  unfolding image_entries
  image_entries-Meets zero key values c enough = absurd (omega arith)
  image_entries-Meets (suc fuel) key values c enough =
      Meets-bind _ (next_token-Meets float limits h c) λ r takes.
        after_entry-Meets _ key values c r takes
          λ key' values' d less. image_entries-Meets fuel key' values' d (omega arith)

  pub parse_inline_image-Meets :
      (c : Cursor)
      → Meets (λ (r : InlineImageSummary × Cursor). Moves c r.1) (parse_inline_image float limits c)
  unfolding parse_inline_image
  parse_inline_image-Meets c = Meets-bind _ (image_entries-Meets _ none [] c (omega arith)) λ s m.
      Meets-bind _ (consume_inline_image_data-Meets limits s.1) λ d m'. returned (Moves-trans m m')
