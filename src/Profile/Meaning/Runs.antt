-- ===== src/Profile/Meaning/Runs.antt =====
-- Rules for the monad of the evaluator of crates/core/src/profile.rs: what a run that succeeds has
-- found, and which runs succeed.
use pdfv.Base.{
  ℕ, suc, ◌+◌, ◌≤◌, Bool, true, false, ◌≡◌, refl, ap, ◌∙◌, arith, if◌then◌else◌, Bool-cases, inl,
  inr, ltb, lt→ltb,
}
use pdfv.Error.{u64_modulus}
use pdfv.Limits.{ResourceLimits}
use pdfv.Profile.Failure.{PdfvError, Checked, ok, err}
use pdfv.Profile.Budget.{Evaluation, resume, ◌>>=◌, lift, step, too_deep, max_rule_instructions}

-- A run from the count `n` ends within the budget, or one instruction past it with an error. When
-- it returns a value, `P` holds of the value and of the number of instructions.
pub data Outcome {A : Type 0} (P : A → ℕ → Type 0) (n : ℕ) : Checked A × ℕ → Type 0 where
  returned :
      {a : A} {k : ℕ} (c : ℕ)
      → k ≡ n + c
      → k ≤ max_rule_instructions
      → P a c
      → Outcome P n (ok a, k)
  raised : {e : PdfvError} {k : ℕ} → n ≤ k → k ≤ max_rule_instructions + 1 → Outcome P n (err e, k)

pub record Found {A : Type 0} (P : A → ℕ → Type 0) (m : Evaluation A) : Type 0 where
  pub finds : (n : ℕ) → n ≤ max_rule_instructions → Outcome P n (m n)

-- From every count with room for `c` more, the run returns the value and has counted `c` more.
pub record Runs {A : Type 0} (m : Evaluation A) (a : A) (c : ℕ) : Type 0 where
  pub runs : (n : ℕ) → n + c ≤ max_rule_instructions → m n ≡ (ok a, n + c)

module _ {A B : Type 0} where
  -- A second part that starts later, after `c` instructions.
  resume-Outcome :
      {P : A → ℕ → Type 0} {Q : B → ℕ → Type 0} {n : ℕ} {p : Checked A × ℕ} (f : A → Evaluation B)
      → Outcome P n p
      → ((a : A) (c : ℕ) → P a c → Found (λ b d. Q b (c + d)) (f a))
      → Outcome Q n (resume p f)
  resume-Outcome f (raised h k) next = raised h k
  resume-Outcome {Q} {n} f (returned {a} {k} c e room p) next = after e ((next a c p).finds k room)
    where
      after :
          {k : ℕ} {q : Checked B × ℕ} → k ≡ n + c → Outcome (λ b d. Q b (c + d)) k q → Outcome Q n q
      after e (returned d e' room' q) = returned (c + d) (omega arith) room' q
      after e (raised h' k') = raised (omega arith) k'

  pub Found-bind :
      {P : A → ℕ → Type 0} {Q : B → ℕ → Type 0} {m : Evaluation A} (f : A → Evaluation B)
      → Found P m
      → ((a : A) (c : ℕ) → P a c → Found (λ b d. Q b (c + d)) (f a))
      → Found Q (m >>= f)
  Found-bind f h next = record { finds = λ n room. resume-Outcome f (h.finds n room) next }

  checked-Outcome :
      {P : A → ℕ → Type 0} {Q : B → ℕ → Type 0} {n : ℕ} {p : Checked A × ℕ} (f : A → Checked B)
      → Outcome P n p
      → ((a : A) (c : ℕ) (b : B) → P a c → f a ≡ ok b → Q b c)
      → Outcome Q n (resume p (λ a. lift (f a)))
  checked-Outcome f (raised h k) next = raised h k
  checked-Outcome {Q} {n} f (returned {a} {k} c e room p) next = split (f a) (λ b g. next a c b p g)
    where
      split : (r : Checked B) → ((b : B) → r ≡ ok b → Q b c) → Outcome Q n (r, k)
      split (ok b) q = returned c e room (q b refl)
      split (err _) q = raised (omega arith) (omega arith)

  -- A bind whose second part evaluates nothing.
  pub Found-then :
      {P : A → ℕ → Type 0} {Q : B → ℕ → Type 0} {m : Evaluation A} (f : A → Checked B)
      → Found P m
      → ((a : A) (c : ℕ) (b : B) → P a c → f a ≡ ok b → Q b c)
      → Found Q (m >>= λ a. lift (f a))
  Found-then f h next = record { finds = λ n room. checked-Outcome f (h.finds n room) next }

  -- A check that evaluates nothing, and what follows it.
  pub Found-check :
      {Q : B → ℕ → Type 0} (r : Checked A) (f : A → Evaluation B)
      → ((a : A) → r ≡ ok a → Found Q (f a))
      → Found Q (lift r >>= f)
  Found-check (ok a) f h = record { finds = (h a refl).finds }
  Found-check (err e) f h = record { finds = λ n room. raised (omega arith) (omega arith) }

  pub Runs-check :
      {r : Checked A} {a : A} {b : B} {c : ℕ} (f : A → Evaluation B)
      → r ≡ ok a
      → Runs (f a) b c
      → Runs (lift r >>= f) b c
  Runs-check f e h = record { runs = λ n room. rw e (h.runs n room) }

  pub Runs-then :
      {m : Evaluation A} {a : A} {b : B} {c : ℕ} (f : A → Checked B)
      → Runs m a c
      → f a ≡ ok b
      → Runs (m >>= λ a. lift (f a)) b c
  Runs-then {c} f h e = record { runs = λ n room. rw (h.runs n room) (ap (λ r. (r, n + c)) e) }

  pub Runs-bind :
      {m : Evaluation A} {a : A} {b : B} {c d : ℕ} (f : A → Evaluation B)
      → Runs m a c
      → Runs (f a) b d
      → Runs (m >>= f) b (c + d)
  Runs-bind {a} {b} {c} {d} f h k = record {
    runs = λ n room.
        rw (h.runs n (omega arith))
          (k.runs (n + c) (omega arith) ∙ ap (λ t. (ok b, t)) (omega arith));
  }

module _ {A : Type 0} where
  pub Found-lift :
      {P : A → ℕ → Type 0} {r : Checked A} → ((a : A) → r ≡ ok a → P a 0) → Found P (lift r)
  Found-lift {r} h = record { finds = λ n room. result r n room h }
    where
      result :
          {P : A → ℕ → Type 0} (r : Checked A) (n : ℕ)
          → n ≤ max_rule_instructions
          → ((a : A) → r ≡ ok a → P a 0)
          → Outcome P n (r, n)
      result (ok a) n room h = returned 0 (omega arith) room (h a refl)
      result (err e) n room h = raised (omega arith) (omega arith)

  Outcome-mono :
      {P Q : A → ℕ → Type 0} {n : ℕ} {p : Checked A × ℕ}
      → Outcome P n p
      → ((a : A) (c : ℕ) → P a c → Q a c)
      → Outcome Q n p
  Outcome-mono (returned c e room p) k = returned c e room (k _ c p)
  Outcome-mono (raised h h') k = raised h h'

  pub Found-mono :
      {P Q : A → ℕ → Type 0} {m : Evaluation A}
      → Found P m
      → ((a : A) (c : ℕ) → P a c → Q a c)
      → Found Q m
  Found-mono h k = record { finds = λ n room. Outcome-mono (h.finds n room) k }

  pub Found-if :
      {Q : A → ℕ → Type 0} (b : Bool) {m n : Evaluation A}
      → (b ≡ true → Found Q m)
      → (b ≡ false → Found Q n)
      → Found Q (if b then m else n)
  Found-if true h k = h refl
  Found-if false h k = k refl

  pub Runs-lift : {r : Checked A} {a : A} → r ≡ ok a → Runs (lift r) a 0
  Runs-lift e = record { runs = λ n room. ground arith }

  pub Runs-eq : {m : Evaluation A} {a : A} {c d : ℕ} → Runs m a c → c ≡ d → Runs m a d
  Runs-eq h e = rw (← e) h

  step_back :
      {P : A → ℕ → Type 0} {n : ℕ} {p : Checked A × ℕ}
      → Outcome (λ a c. P a (suc c)) (n + 1) p
      → Outcome P n p
  step_back (returned c e room p) = returned (suc c) (omega arith) room p
  step_back (raised h k) = raised (omega arith) k

  module _ (limits : ResourceLimits) (depth : ℕ) (m : Evaluation A) where
    step-Outcome :
        {P : A → ℕ → Type 0} (n : ℕ)
        → n ≤ max_rule_instructions
        → (n + 1 ≤ max_rule_instructions → Outcome (λ a c. P a (suc c)) (n + 1) (m (n + 1)))
        → Outcome P n (step limits depth m n)
    unfolding step
    step-Outcome {P} n room h =
        rw (lt→ltb (n + 1) u64_modulus (omega arith))
          (elim (Bool-cases (ltb max_rule_instructions (n + 1))) [
            | inl over ↦ rw over (raised (omega arith) (omega arith))
            | inr under ↦ rw under (elim (Bool-cases (too_deep limits depth)) [
              | inl deep ↦ rw deep (raised (omega arith) (omega arith))
              | inr shallow ↦ rw shallow (step_back (h (ground arith)))
            ])
          ])

    pub Found-step :
        {P : A → ℕ → Type 0} → Found (λ a c. P a (suc c)) m → Found P (step limits depth m)
    Found-step h = record { finds = λ n room. step-Outcome n room (h.finds (n + 1)) }

    pub Runs-step :
        {a : A} {c : ℕ}
        → too_deep limits depth ≡ false
        → Runs m a c
        → Runs (step limits depth m) a (suc c)
    unfolding step
    Runs-step h k = record { runs = λ n room. ground (arith, k.runs (n + 1)) }
