-- ===== src/Acts.antt =====
-- Computations that act on a state: each returns or throws, and leaves a state behind.
use memeloop_token_center_mi.Common.{
  ◌≡◌, ◌∙◌, refl, ap, ◌⊎◌, inl, inr, Bool, true, false, if◌then◌else◌, Result, ok, err, ok_inj,
}

abbrev pub Acting : Type 0 → Type 0 → Type 0 → Type 0
Acting E S A = S → Result E A × S

module _ {E S A : Type 0} where
  -- a step that does not act
  abbrev pub pure : Result E A → Acting E S A
  pure r s = (r, s)

  module _ {B : Type 0} where
    -- what follows a step, from the state that the step left
    abbrev pub resume : (A → Acting E S B) → Result E A × S → Result E B × S
    resume next (ok a, s) = next a s
    resume next (err e, s) = (err e, s)

    infixl 5 ◌>>=◌
    abbrev pub ◌>>=◌ : Acting E S A → (A → Acting E S B) → Acting E S B
    (first >>= next) s = resume next (first s)

module _ {E S B : Type 0} where
  infixl 5 ◌>>◌
  abbrev pub ◌>>◌ : Acting E S (Unit {0}) → Acting E S B → Acting E S B
  first >> next = first >>= λ _. next

-- `if (condition) action;`
abbrev pub when : {E S : Type 0} → Bool → Acting E S (Unit {0}) → Acting E S (Unit {0})
when true action = action
when false action = λ s. (ok tt, s)

module _ {E S A : Type 0} where
  -- `try { action } catch (error) { handler }`
  abbrev pub recover : (E → Acting E S A) → Result E A × S → Result E A × S
  recover handler (ok a, s) = (ok a, s)
  recover handler (err e, s) = handler e s

  abbrev pub catch : Acting E S A → (E → Acting E S A) → Acting E S A
  catch action handler s = recover handler (action s)

  -- `finally`: an error of the last step replaces what was returned or thrown
  abbrev pub replace : Result E A → Result E (Unit {0}) × S → Result E A × S
  replace r (ok _, s) = (r, s)
  replace r (err e, s) = (err e, s)

  -- `try { action } finally { last }`
  abbrev pub finally : Acting E S A → Acting E S (Unit {0}) → Acting E S A
  finally action last s = replace (action s).0 (last (action s).1)

-- What a chain that returned says of its first step, and of the others.
pub resume-eq-ok :
    {E S A B : Type 0} (first : Result E A × S) (next : A → Acting E S B) {b : B} {t : S}
    → resume next first ≡ (ok b, t)
    → (a : A) × (first.0 ≡ ok a) × (next a first.1 ≡ (ok b, t))
resume-eq-ok (ok a, s) next h = (a, refl, h)
resume-eq-ok (err e, s) next h = cc

-- What holds of a chain, whatever its steps answer.
pub resume-ends :
    {E S A B : Type 0} (P : Result E B × S → Type 0) (first : Result E A × S)
    (next : A → Acting E S B)
    → ((a : A) → first.0 ≡ ok a → P (next a first.1))
    → ((e : E) → P (err e, first.1))
    → P (resume next first)
resume-ends P (ok a, s) next h k = h a refl
resume-ends P (err e, s) next h k = k e

-- A step that does not act leaves the state.
module _ {E S A B : Type 0} (f : A → Result E B) where
  pub pure_leaves : (first : Result E A × S) → (resume (λ a. pure (f a)) first).1 ≡ first.1
  pure_leaves (ok a, s) = refl
  pure_leaves (err e, s) = refl

  pub pure-eq-ok :
      (first : Result E A × S) {b : B}
      → (resume (λ a. pure (f a)) first).0 ≡ ok b
      → (a : A) × (first.0 ≡ ok a) × (f a ≡ ok b)
  pure-eq-ok (ok a, s) h = (a, refl, h)
  pure-eq-ok (err e, s) h = cc

-- A step that acts only where a test fails.
pub act_unless-eq-ok :
    {E S A : Type 0} (b : Bool) (x y : A) (m : Acting E S (Unit {0})) (s t : S) {z : A}
    → (if b then pure (ok x) else (when true m >> pure (ok y))) s ≡ (ok z, t)
    → ((b ≡ true) × (s ≡ t) × (x ≡ z)) ⊎ ((b ≡ false) × (m s ≡ (ok tt, t)) × (y ≡ z))
act_unless-eq-ok true x y m s t h = inl (refl, ap (λ r. r.1) h, ok_inj (ap (λ r. r.0) h))
act_unless-eq-ok false x y m s t h =
    let (u, e, f) = resume-eq-ok (m s) (λ _. pure (ok y)) h in
    let g : (m s).1 ≡ t = ap (λ r. r.1) f in inr (refl, λ i. (e i, g i), ok_inj (ap (λ r. r.0) f))

-- What holds after a step that acts only where a test fails, whatever it answers.
pub act_unless-ends :
    {E S A : Type 0} (P : S → Type 0) (b apply : Bool) (x y : A) (m : Acting E S (Unit {0})) (s : S)
    → P s
    → (apply ≡ true → P (m s).1)
    → P ((if b then pure (ok x) else (when apply m >> pure (ok y))) s).1
act_unless-ends P true apply x y m s h k = h
act_unless-ends P false false x y m s h k = h
act_unless-ends P false true x y m s h k =
    resume-ends (λ r. P r.1) (m s) (λ _. pure (ok y)) (λ _ _. k refl) (λ _. k refl)

pub resume_ok :
    {E S A B : Type 0} (first : Result E A × S) (next : A → Acting E S B) {a : A}
    → first.0 ≡ ok a
    → resume next first ≡ next a first.1
resume_ok (ok a, s) next h = ap (λ b. next b s) (ok_inj h)
resume_ok (err e, s) next h = cc

pub when-ok :
    {E S : Type 0} (b : Bool) (m : Acting E S (Unit {0})) (s : S)
    → (m s).0 ≡ ok tt
    → (when b m s).0 ≡ ok tt
when-ok true m s h = h
when-ok false m s h = refl

-- A computation that leaves what is seen of the state as it was, whatever it answers.
abbrev pub Keeps : {E S V A : Type 0} → (S → V) → Acting E S A → Type 0
Keeps view act = (s : _) → view (act s).1 ≡ view s

module _ {E S V : Type 0} (view : S → V) where
  pub Keeps-bind :
      {A B : Type 0} (act : Acting E S A) (next : A → Acting E S B)
      → Keeps view act
      → ((a : A) → Keeps view (next a))
      → Keeps view (act >>= next)
  Keeps-bind act next h k s =
      resume-ends (λ r. view r.1 ≡ view s) (act s) next (λ a _. k a (act s).1 ∙ h s) (λ e. h s)

  kept_recovery :
      {A : Type 0} (r : Result E A × S) (handler : E → Acting E S A) (v : V)
      → view r.1 ≡ v
      → ((e : E) → Keeps view (handler e))
      → view (recover handler r).1 ≡ v
  kept_recovery (ok a, s) handler v h k = h
  kept_recovery (err e, s) handler v h k = k e s ∙ h

  pub Keeps-catch :
      {A : Type 0} (act : Acting E S A) (handler : E → Acting E S A)
      → Keeps view act
      → ((e : E) → Keeps view (handler e))
      → Keeps view (catch act handler)
  Keeps-catch act handler h k s = kept_recovery (act s) handler (view s) (h s) k
