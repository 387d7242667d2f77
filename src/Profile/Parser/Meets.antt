-- ===== src/Profile/Parser/Meets.antt =====
-- What the parser of crates/core/src/profile.rs guarantees: an answer that satisfies a predicate,
-- and for the grammar that it ends.
use pdfv.Base.{ℕ, Bytes, Bool, true, false, String, ◌≡◌, ◌≤◌, refl, arith, if◌then◌else◌, length}
use pdfv.Profile.Parser.Outcome as Outcome
use pdfv.Profile.Parser.Outcome.{Parsed, ok, refused, panicked}
use pdfv.Profile.Parser.Run.{Run, done, ◌>>=◌, answer, refuse}

-- The text after a result has at most this many bytes.
abbrev pub Leaves : {A : Type 0} → ℕ → A × Bytes → Type 0
Leaves n result = length (result.1) ≤ n

pub data Answers {A : Type 0} (P : A → Type 0) : Parsed A → Type 0 where
  found : {a : A} → P a → Answers P (ok a)
  refusal : {reason : String} → Answers P (refused reason)
  panic : Answers P panicked

pub data Meets {A : Type 0} (P : A → Type 0) : Run A → Type 0 where
  answered : {m : Parsed A} → Answers P m → Meets P (done m)

pub Answers-any : {A : Type 0} (m : Parsed A) → Answers (λ _. Unit {0}) m
Answers-any (ok a) = found tt
Answers-any (refused reason) = refusal
Answers-any panicked = panic

module _ {A : Type 0} {P : A → Type 0} where
  pub returned : {a : A} → P a → Meets P (answer a)
  returned h = answered (found h)

  pub raised : {reason : String} → Meets P (refuse reason)
  raised = answered refusal

  pub Answers-if :
      (b : Bool) {m n : Parsed A}
      → (b ≡ true → Answers P m)
      → (b ≡ false → Answers P n)
      → Answers P (if b then m else n)
  Answers-if true h k = h refl
  Answers-if false h k = k refl

  pub Meets-if :
      (b : Bool) {m n : Run A}
      → (b ≡ true → Meets P m)
      → (b ≡ false → Meets P n)
      → Meets P (if b then m else n)
  Meets-if true h k = h refl
  Meets-if false h k = k refl

module _ {A B : Type 0} {P : A → Type 0} {Q : B → Type 0} where
  pub Answers-bind :
      {m : Parsed A} (f : A → Parsed B)
      → Answers P m
      → ((a : A) → P a → Answers Q (f a))
      → Answers Q (Outcome.◌>>=◌ m f)
  Answers-bind f (found h) k = k _ h
  Answers-bind f refusal k = refusal
  Answers-bind f panic k = panic

  pub Meets-bind :
      {m : Run A} (f : A → Run B) → Meets P m → ((a : A) → P a → Meets Q (f a)) → Meets Q (m >>= f)
  Meets-bind f (answered (found h)) k = k _ h
  Meets-bind f (answered refusal) k = answered refusal
  Meets-bind f (answered panic) k = answered panic

module _ {A B : Type 0} {Q : B → Type 0} where
  -- A step of which only the end matters.
  pub Meets-then :
      (m : Parsed A) (f : A → Run B) → ((a : A) → Meets Q (f a)) → Meets Q (done m >>= f)
  Meets-then (ok a) f k = k a
  Meets-then (refused reason) f k = raised
  Meets-then panicked f k = answered panic

-- A result that leaves less text.
module _ {A : Type 0} {m n : ℕ} where
  pub Answers-less : {p : Parsed (A × Bytes)} → m ≤ n → Answers (Leaves m) p → Answers (Leaves n) p
  Answers-less h (found k) = found (omega arith)
  Answers-less h refusal = refusal
  Answers-less h panic = panic

  pub Meets-less : {p : Run (A × Bytes)} → m ≤ n → Meets (Leaves m) p → Meets (Leaves n) p
  Meets-less h (answered k) = answered (Answers-less h k)
