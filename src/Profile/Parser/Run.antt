-- ===== src/Profile/Parser/Run.antt =====
-- What the loops and the grammar of the parser of crates/core/src/profile.rs give: an answer, or
-- `diverged` when a loop of the model runs out of fuel.
use pdfv.Base.{String}
use pdfv.Profile.Parser.Outcome.{Parsed, ok, refused, panicked}

pub data Run {ℓ} (A : Type ℓ) : Type ℓ where
  done : Parsed A → Run A
  diverged : Run A

infixl 5 ◌>>=◌
abbrev pub ◌>>=◌ {ℓ κ} : {A : Type ℓ} {B : Type κ} → Run A → (A → Run B) → Run B
done (ok a) >>= f = f a
done (refused reason) >>= f = done (refused reason)
done panicked >>= f = done panicked
diverged >>= f = diverged

abbrev pub answer {ℓ} : {A : Type ℓ} → A → Run A
answer a = done (ok a)

abbrev pub refuse {ℓ} : {A : Type ℓ} → String → Run A
refuse reason = done (refused reason)
