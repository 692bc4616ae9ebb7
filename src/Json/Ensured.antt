-- ===== src/Json/Ensured.antt =====
-- What holds of the values that a step of the strict parser returns.
use Prim.Native.Nat.{max}
use memeloop_token_center_mi.Common.{
  ℕ, suc, ◌≤◌, ◌<◌, ◌≡◌, refl, Bool, true, false, Option, none, some, List, [], ◌∷◌, Text,
  if◌then◌else◌, Result, ok, err, ◌>>=◌, contains, arith, text_eq, All,
}
use memeloop_token_center_mi.Json.Strings.{JsonError, Parsed}
use memeloop_token_center_mi.Json.Number.{safe_integer_max}
use memeloop_token_center_mi.Json.Parser.{
  Value, int, arr, obj, Items, nil, cons, Fields, end, field, or_literal,
}

abbrev pub keys_of : Fields → List Text
keys_of end = []
keys_of (field k v fs) = k ∷ keys_of fs

unfoldable mutual
  -- The deepest nesting of a value in it.
  pub depth : Value → ℕ
  depth (arr xs) = depth_items xs
  depth (obj fs) = depth_fields fs
  depth _ = 0

  pub depth_items : Items → ℕ
  depth_items nil = 0
  depth_items (cons v vs) = max (suc (depth v)) (depth_items vs)

  pub depth_fields : Fields → ℕ
  depth_fields end = 0
  depth_fields (field k v fs) = max (suc (depth v)) (depth_fields fs)

unfoldable mutual
  -- Every object has distinct keys, and every integer is a safe one.
  pub IsClean : Value → Type 0
  IsClean (int _ n) = n ≤ safe_integer_max
  IsClean (arr xs) = AreClean xs
  IsClean (obj fs) = HasDistinctKeys fs
  IsClean _ = Unit

  pub AreClean : Items → Type 0
  AreClean nil = Unit
  AreClean (cons v vs) = IsClean v × AreClean vs

  pub HasDistinctKeys : Fields → Type 0
  HasDistinctKeys end = Unit
  HasDistinctKeys (field k v fs) =
      (contains k (keys_of fs) ≡ false) × IsClean v × HasDistinctKeys fs

abbrev pub Ensures : {A : Type 0} → (A → Type 0) → Parsed A → Type 0
Ensures P (ok (a, rest)) = P a
Ensures P (err e) = Unit

unfoldable pub Ensures-bind :
    {A B : Type 0} (P : A → Type 0) (Q : B → Type 0) (m : Parsed A) (f : A × Text → Parsed B)
    → Ensures P m
    → ((r : A × Text) → P r.0 → Ensures Q (f r))
    → Ensures Q (m >>= f)
Ensures-bind P Q (ok r) f h k = k r h
Ensures-bind P Q (err e) f h k = tt

pub Ensures-if :
    {A : Type 0} (P : A → Type 0) (b : Bool) (m k : Parsed A)
    → Ensures P m
    → Ensures P k
    → Ensures P (if b then m else k)
Ensures-if P true m k h h' = h
Ensures-if P false m k h h' = h'

unfoldable pub Ensures-any : {A : Type 0} (m : Parsed A) → Ensures (λ _. Unit {0}) m
Ensures-any (ok r) = tt
Ensures-any (err e) = tt

unfoldable pub Ensures-after :
    {A : Type 0} (Q : A → Type 0) (m : Result JsonError Text) (f : Text → Parsed A)
    → ((t : Text) → Ensures Q (f t))
    → Ensures Q (m >>= f)
Ensures-after Q (ok t) f h = h t
Ensures-after Q (err e) f h = tt

unfoldable pub Ensures-literal :
    (P : Value → Type 0) (o : Option Text) (v : Value) (m : Parsed Value)
    → P v
    → Ensures P m
    → Ensures P (or_literal o v m)
Ensures-literal P none v m h k = k
Ensures-literal P (some r) v m h k = h

-- A value of a parser with so many levels left.
abbrev pub Fits : ℕ → Value → Type 0
Fits levels v = IsClean v × (depth v < levels)

abbrev pub FitItems : ℕ → Items → Type 0
FitItems levels vs = AreClean vs × (depth_items vs ≤ levels)

-- no member has one of the keys before it
abbrev pub Apart : List Text → Fields → Type 0
Apart keys fs = All (λ k. contains k (keys_of fs) ≡ false) keys

abbrev pub FitFields : ℕ → List Text → Fields → Type 0
FitFields levels keys fs = HasDistinctKeys fs × (depth_fields fs ≤ levels) × Apart keys fs

pub text_eq_sym : (s t : Text) → text_eq s t ≡ text_eq t s
text_eq_sym [] [] = refl
text_eq_sym [] (b ∷ t) = refl
text_eq_sym (a ∷ s) [] = refl
text_eq_sym (a ∷ s) (b ∷ t) = ground (arith, text_eq_sym s t)

pub Apart-field :
    (k : Text) (v : Value) (keys : List Text) (fs : Fields)
    → contains k keys ≡ false
    → Apart keys fs
    → Apart keys (field k v fs)
Apart-field k v [] fs h a = tt
Apart-field k v (j ∷ keys) fs h (here, a) =
    (ground (arith, text_eq_sym j k), Apart-field k v keys fs (ground arith) a)

pub Apart-end : (keys : List Text) → Apart keys end
Apart-end [] = tt
Apart-end (k ∷ keys) = (refl, Apart-end keys)
