-- ===== src/Error/Meets.antt =====
-- What fallible code guarantees: it ends, and a result of it satisfies a predicate.
use pdfv.Base.{Bool, true, false, Option, none, some, ◌≡◌, ◌≢◌, refl, if◌then◌else◌}
use pdfv.Error.{ParseError, Result, ok, err, diverged, ◌>>=◌, ok_or, ensure}

-- The code ends, with an error or with a result that satisfies `P`.
pub data Meets {A : Type 0} (P : A → Type 0) : Result A → Type 0 where
  returned : {a : A} → P a → Meets P (ok a)
  raised : {e : ParseError} → Meets P (err e)

module _ {A : Type 0} {P : A → Type 0} where
  pub Meets-ok : (a : A) → Meets P (ok a) → P a
  Meets-ok a (returned h) = h

  pub Meets-ne-diverged : {m : Result A} → Meets P m → m ≢ diverged
  Meets-ne-diverged (returned h) = cc
  Meets-ne-diverged raised = cc

  pub Meets-eq-ok : {m : Result A} {a : A} → Meets P m → m ≡ ok a → P a
  Meets-eq-ok {m} {a} h e = Meets-ok a (rw (e) at h)

  pub Meets-mono : {Q : A → Type 0} {m : Result A} → Meets P m → ((a : A) → P a → Q a) → Meets Q m
  Meets-mono (returned h) k = returned (k _ h)
  Meets-mono raised k = raised

  pub Meets-if :
      (b : Bool) {m n : Result A}
      → (b ≡ true → Meets P m)
      → (b ≡ false → Meets P n)
      → Meets P (if b then m else n)
  Meets-if true h k = h refl
  Meets-if false h k = k refl

module _ {A B : Type 0} {Q : B → Type 0} where
  pub Meets-bind :
      {P : A → Type 0} {m : Result A} (f : A → Result B)
      → Meets P m
      → ((a : A) → P a → Meets Q (f a))
      → Meets Q (m >>= f)
  Meets-bind f (returned h) k = k _ h
  Meets-bind f raised k = raised

module _ {B : Type 0} {Q : B → Type 0} where
  pub Meets-ensure :
      (b : Bool) (e : ParseError) (f : Unit {0} → Result B)
      → (b ≡ true → Meets Q (f tt))
      → Meets Q (ensure b e >>= f)
  Meets-ensure true e f h = h refl
  Meets-ensure false e f h = raised

  pub Meets-ok_or :
      {A : Type 0} (o : Option A) (e : ParseError) (f : A → Result B)
      → ((a : A) → o ≡ some a → Meets Q (f a))
      → Meets Q (ok_or o e >>= f)
  Meets-ok_or none e f h = raised
  Meets-ok_or (some a) e f h = h a refl
