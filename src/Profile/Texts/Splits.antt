-- ===== src/Profile/Texts/Splits.antt =====
-- The parts of `split_string` of crates/core/src/profile.rs.
use pdfv.Base.{
  ℕ, zero, suc, ◌+◌, ◌-◌, ◌≤◌, Bytes, true, false, none, List, [], ◌∷◌, ◌++◌, ◌≡◌, ◌∙◌, refl, ap,
  arith, leb, All, length, drop, Bool-cases, inl, inr,
}
use pdfv.Cursor.{is_prefix}
use pdfv.Profile.Failure.{ok, >>=-eq-ok, ok-injective, bounded_text}
use pdfv.Profile.Value.{ModelValue}
use pdfv.Profile.Texts.{
  max_profile_string_bytes, find_text, onto_first, split_text, push_parts, split_string,
}

-- The parts with the separator between them.
pub join : Bytes → List Bytes → Bytes
join separator [] = []
join separator (part ∷ []) = part
join separator (part ∷ next ∷ parts) = part ++ separator ++ join separator (next ∷ parts)

is_prefix-drop :
    (expected text : Bytes)
    → is_prefix expected text ≡ true
    → expected ++ drop (length expected) text ≡ text
unfolding is_prefix
is_prefix-drop [] text h = refl
is_prefix-drop (e ∷ expected) (b ∷ text) h = ground (arith, is_prefix-drop expected text)
is_prefix-drop (e ∷ expected) [] h = cc

is_prefix_step :
    (expected part text : Bytes)
    → is_prefix expected part ≡ true
    → is_prefix part text ≡ true
    → is_prefix expected text ≡ true
unfolding is_prefix
is_prefix_step [] part text h k = refl
is_prefix_step (e ∷ expected) [] text h k = cc
is_prefix_step (e ∷ expected) (p ∷ part) [] h k = cc
is_prefix_step (e ∷ expected) (p ∷ part) (b ∷ text) h k =
    ground (arith, is_prefix_step expected part text)

module _ (s : ℕ) (separator : Bytes) where
  abbrev whole : Bytes
  whole = s ∷ separator

  -- The first part, and the others.
  split_text-cons :
      (skip : ℕ) (text : Bytes)
      → (part : Bytes) × (parts : List Bytes) × (split_text whole skip text ≡ part ∷ parts)
  unfolding split_text
  split_text-cons skip [] = ([], [], refl)
  split_text-cons (suc skip) (b ∷ text) = split_text-cons skip text
  split_text-cons zero (b ∷ text) = elim (Bool-cases (is_prefix whole (b ∷ text))) [
    | inl found ↦ ([], split_text whole (length whole - 1) text, rw found)
    | inr missing ↦
        let (part, parts, e) = split_text-cons 0 text in (b ∷ part, parts, rw (missing, e))
  ]

  join_one : join whole ([] ∷ []) ≡ []
  unfolding join
  join_one = refl

  abbrev HasParts : List Bytes → Type 0
  HasParts xs = (part : Bytes) × (parts : List Bytes) × (xs ≡ part ∷ parts)

  join-after :
      (parts : List Bytes) → HasParts parts → join whole ([] ∷ parts) ≡ whole ++ join whole parts
  unfolding join
  join-after parts (part, more, e) = rw e

  join-onto_first :
      (b : ℕ) (parts : List Bytes)
      → HasParts parts
      → join whole (onto_first b parts) ≡ b ∷ join whole parts
  unfolding join
  join-onto_first b [] (part, more, e) = cc
  join-onto_first b (part ∷ []) h = refl
  join-onto_first b (part ∷ next ∷ more) h = refl

  join-split_text :
      (skip : ℕ) (text : Bytes) → join whole (split_text whole skip text) ≡ drop skip text
  unfolding split_text
  join-split_text zero [] = join_one
  join-split_text (suc skip) [] = join_one
  join-split_text (suc skip) (b ∷ text) = join-split_text skip text
  join-split_text zero (b ∷ text) = elim (Bool-cases (is_prefix whole (b ∷ text))) [
    | inl found ↦
        let same : length whole - 1 ≡ length separator = omega arith in
        rw found (
          join-after _ (split_text-cons (length whole - 1) text)
          ∙ ap (λ rest. whole ++ rest)
              (join-split_text (length whole - 1) text ∙ ap (λ n. drop n text) same)
          ∙ is_prefix-drop whole (b ∷ text) found)
    | inr missing ↦ rw missing (
        join-onto_first b _ (split_text-cons 0 text)
        ∙ ap (λ rest. b ∷ rest) (join-split_text 0 text))
  ]

  -- The separator does not stand in the part.
  abbrev Lacks : Bytes → Type 0
  Lacks part = find_text whole part ≡ none

  abbrev FirstIsPrefix : List Bytes → Bytes → Type 0
  FirstIsPrefix [] text = Unit
  FirstIsPrefix (part ∷ parts) text = is_prefix part text ≡ true

  Lacks-nil : Lacks []
  unfolding find_text is_prefix
  Lacks-nil = refl

  is_prefix-nil : (text : Bytes) → is_prefix [] text ≡ true
  unfolding is_prefix
  is_prefix-nil text = refl

  is_prefix-cons :
      (b : ℕ) (part text : Bytes)
      → is_prefix part text ≡ true
      → is_prefix (b ∷ part) (b ∷ text) ≡ true
  unfolding is_prefix
  is_prefix-cons b part text h = ground arith

  Lacks-cons :
      (b : ℕ) (part : Bytes) → is_prefix whole (b ∷ part) ≡ false → Lacks part → Lacks (b ∷ part)
  unfolding find_text
  Lacks-cons b part h k = rw (h, k) refl

  Lacks-onto_first :
      (b : ℕ) (text : Bytes) (parts : List Bytes)
      → is_prefix whole (b ∷ text) ≡ false
      → HasParts parts
      → All Lacks parts × FirstIsPrefix parts text
      → All Lacks (onto_first b parts) × FirstIsPrefix (onto_first b parts) (b ∷ text)
  Lacks-onto_first b text [] missing (part, more, e) h = cc
  Lacks-onto_first b text (part ∷ parts) missing h (lacks, first) =
      let longer = is_prefix-cons b part text first in
      let absent : is_prefix whole (b ∷ part) ≡ false =
        elim (Bool-cases (is_prefix whole (b ∷ part))) [
          | inl found ↦ cc (is_prefix_step whole (b ∷ part) (b ∷ text) found longer)
          | inr absent ↦ absent
        ] in
      ((Lacks-cons b part absent lacks.0, lacks.1), longer)

  -- The parts lack the separator, and the first is a prefix of what is left of the text.
  Lacks-split_text :
      (skip : ℕ) (text : Bytes)
      → All Lacks (split_text whole skip text)
        × FirstIsPrefix (split_text whole skip text) (drop skip text)
  unfolding split_text
  Lacks-split_text zero [] = ((Lacks-nil, tt), is_prefix-nil [])
  Lacks-split_text (suc skip) [] = ((Lacks-nil, tt), is_prefix-nil [])
  Lacks-split_text (suc skip) (b ∷ text) = Lacks-split_text skip text
  Lacks-split_text zero (b ∷ text) = elim (Bool-cases (is_prefix whole (b ∷ text))) [
    | inl found ↦
        rw found
          ((Lacks-nil, (Lacks-split_text (length whole - 1) text).0), is_prefix-nil (b ∷ text))
    | inr missing ↦
        rw missing
          (Lacks-onto_first b text _ missing (split_text-cons 0 text) (Lacks-split_text 0 text))
  ]

bounded_text-eq-ok :
    (value : Bytes) (max : ℕ) {kept : Bytes} → bounded_text value max ≡ ok kept → kept ≡ value
unfolding bounded_text
bounded_text-eq-ok value max h = ground arith

module _ {R : Type 0} where
  abbrev pub strings : List Bytes → List (ModelValue R)
  strings [] = []
  strings (part ∷ parts) = ModelValue.string part ∷ strings parts

  -- The loop makes a string of each part, in order, and there are few enough of them.
  push_parts_lem :
      (max_array_len count : ℕ) (parts : List Bytes) {values : List (ModelValue R)}
      → count ≤ max_array_len
      → push_parts max_array_len count parts ≡ ok values
      → (values ≡ strings parts) × (count + length parts ≤ max_array_len)
  unfolding push_parts
  push_parts_lem max_array_len count [] room h = (ground arith, omega arith)
  push_parts_lem max_array_len count (part ∷ parts) room h =
      elim (Bool-cases (leb max_array_len count)) [
        | inl full ↦ cc (rw (full) at h)
        | inr free ↦
            let (value, first, rest) =
              >>=-eq-ok (bounded_text part max_profile_string_bytes) _ (rw (free) at h) in
            let (more, second, last) =
              >>=-eq-ok (push_parts max_array_len (count + 1) parts) _ rest in
            let (same, few) =
              push_parts_lem max_array_len (count + 1) parts (ground arith) second in
            (
              rw (← ok-injective last, bounded_text-eq-ok part _ first, same) refl,
              omega (arith, few),
            )
      ]

  pub split_string_parts :
      (value separator : Bytes) (max_array_len : ℕ) {values : List (ModelValue R)}
      → split_string value separator max_array_len ≡ ok values
      → (parts : List Bytes) × (values ≡ strings parts)
        × (join separator parts ≡ value)
        × All (λ part. find_text separator part ≡ none) parts
        × (length parts ≤ max_array_len)
  unfolding split_string
  split_string_parts value [] max_array_len h = cc
  split_string_parts value (s ∷ separator) max_array_len h =
      let (same, room) = push_parts_lem max_array_len 0 _ (omega arith) h in
      (
        split_text (s ∷ separator) 0 value,
        same,
        join-split_text s separator 0 value,
        (Lacks-split_text s separator 0 value).0,
        omega arith,
      )
