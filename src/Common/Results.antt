-- ===== src/Common/Results.antt =====
-- A computation that returns a value or throws an error; `E` lists what the code throws.
use memeloop_token_center_mi.Common.Tests.{if◌then◌else◌}
use mathlib.Core.Path.{◌≡◌, refl}
use mathlib.Core.Bool.{Bool, true, false, not}

pub data Result {ℓ} (E : Type 0) (A : Type ℓ) : Type ℓ where
  ok : A → Result E A
  err : E → Result E A

-- `if (condition) throw e;`
abbrev pub throw_if : {E : Type 0} → Bool → E → Result E (Unit {0})
throw_if true e = err e
throw_if false e = ok tt

pub throw_if-eq-ok :
    {E : Type 0} (b : Bool) (e : E) {u : Unit {0}} → throw_if b e ≡ ok u → b ≡ false
throw_if-eq-ok true e h = cc
throw_if-eq-ok false e h = refl

pub throw_unless-eq-ok :
    {E : Type 0} (b : Bool) (e : E) {u : Unit {0}} → throw_if (not b) e ≡ ok u → b ≡ true
throw_unless-eq-ok true e h = refl
throw_unless-eq-ok false e h = cc

abbrev pub is_ok {ℓ} : {E : Type 0} {A : Type ℓ} → Result E A → Bool
is_ok (err _) = false
is_ok (ok _) = true

module _ {ℓ κ} {E : Type 0} {A : Type ℓ} {B : Type κ} where
  infixl 5 ◌>>=◌
  abbrev pub ◌>>=◌ : Result E A → (A → Result E B) → Result E B
  err e >>= next = err e
  ok a >>= next = next a

  -- What a chain that returned says of its first step, and of the others.
  pub >>=-eq-ok :
      (first : Result E A) (next : A → Result E B) {b : B}
      → (first >>= next) ≡ ok b
      → (a : A) × (first ≡ ok a) × (next a ≡ ok b)
  >>=-eq-ok (err e) next h = cc
  >>=-eq-ok (ok a) next h = (a, refl, h)

module _ {κ} {E : Type 0} {B : Type κ} where
  infixl 5 ◌>>◌
  abbrev pub ◌>>◌ : Result E (Unit {0}) → Result E B → Result E B
  check >> next = check >>= λ _. next

pub ok_inj {ℓ} : {E : Type 0} {A : Type ℓ} {a b : A} → ◌≡◌ {A = Result E A} (ok a) (ok b) → a ≡ b
ok_inj h = cc

-- What a guard that let a value through says.
module _ {ℓ} {E : Type 0} {A : Type ℓ} where
  pub kept_if :
      (b : Bool) (x y : A) (e : E)
      → ◌≡◌ {A = Result E A} (if b then ok x else err e) (ok y)
      → (b ≡ true) × (x ≡ y)
  kept_if true x y e h = (refl, ok_inj h)
  kept_if false x y e h = cc

  pub kept_unless :
      (b : Bool) (x y : A) (e : E)
      → ◌≡◌ {A = Result E A} (if b then err e else ok x) (ok y)
      → (b ≡ false) × (x ≡ y)
  kept_unless true x y e h = cc
  kept_unless false x y e h = (refl, ok_inj h)

  pub passed_unless :
      (b : Bool) (m : Result E A) (y : A) (e : E)
      → (if b then err e else m) ≡ ok y
      → (b ≡ false) × (m ≡ ok y)
  passed_unless true m y e h = cc
  passed_unless false m y e h = (refl, h)

-- What holds of the value returned, or of the error thrown.
abbrev pub Post {ℓ} : {E : Type 0} {A : Type ℓ} → (A → Type 0) → (E → Type 0) → Result E A → Type 0
Post P Q (ok a) = P a
Post P Q (err e) = Q e

module _ {ℓ κ} {E : Type 0} {A : Type ℓ} {B : Type κ} where
  pub Post-bind :
      (P : A → Type 0) (R : B → Type 0) (Q : E → Type 0) (first : Result E A)
      (next : A → Result E B)
      → Post P Q first
      → ((a : A) → P a → Post R Q (next a))
      → Post R Q (first >>= next)
  Post-bind P R Q (ok a) next h k = k a h
  Post-bind P R Q (err e) next h k = h

module _ {ℓ} {E : Type 0} {A : Type ℓ} where
  pub Post-if :
      (P : A → Type 0) (Q : E → Type 0) (b : Bool) (x y : Result E A)
      → Post P Q x
      → Post P Q y
      → Post P Q (if b then x else y)
  Post-if P Q true x y h k = h
  Post-if P Q false x y h k = k

  pub Post-weaken :
      (P R : A → Type 0) (Q : E → Type 0) (r : Result E A)
      → ((a : A) → P a → R a)
      → Post P Q r
      → Post R Q r
  Post-weaken P R Q (ok a) f h = f a h
  Post-weaken P R Q (err e) f h = h
