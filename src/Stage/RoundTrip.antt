-- ===== src/Stage/RoundTrip.antt =====
-- Command lines in a normal form: every accepted command line has one that is read alike.
use memeloop_token_center_mi.Json.RoundTrip.Numbers.{
  AreDigits, digits_of-AreDigits, decimal-digits_of,
}
use memeloop_token_center_mi.Common.{
  length-append, ◌/◌, ◌%◌, ◌+◌, ℕ, zero, suc, ◌≤◌, ◌<◌, ◌≡◌, refl, ◌∙◌, Bool, true, false, Option,
  none, some, List, [], ◌∷◌, ◌++◌, Text, units, le→leb, ◌==◌, all, length, ok, arith, String,
}
use memeloop_token_center_mi.Json.Parser.{behind}
use memeloop_token_center_mi.Json.Number.{is_digit, safe_integer_max}
use memeloop_token_center_mi.Json.Print.{digits_of}
use memeloop_token_center_mi.Routes.Strings.{starts_with}
use memeloop_token_center_mi.Stage.Options.{
  CopyRequest, Arguments, unsigned, path_value, next_value, form_of,
}
use memeloop_token_center_mi.Stage.Args.{parse_pair, take_form, parse_loop}
use memeloop_token_center_mi.Stage.Readers.{BothSatisfy, IsTaken, IsTaken-IsPath}

abbrev pub put_requests : String → List CopyRequest → List Text → List Text
put_requests name [] rest = rest
put_requests name (r ∷ rs) rest = units name ∷ r.source ∷ r.target ∷ put_requests name rs rest

abbrev pub put_exclusions : List Text → List Text → List Text
put_exclusions [] rest = rest
put_exclusions (e ∷ es) rest = (units "--exclude-auth-subdir=" ++ e) ∷ put_exclusions es rest

abbrev pub put_checkpoint : Option Text → List Text → List Text
put_checkpoint none rest = rest
put_checkpoint (some p) rest = (units "--checkpoint=" ++ p) ∷ rest

abbrev pub put_required : Bool → List Text → List Text
put_required true rest = units "--checkpoint-required" ∷ rest
put_required false rest = rest

abbrev pub number_text : ℕ → Text
number_text n = digits_of (suc n) n

-- The arguments in their order, the options in one order, every limit written out.
unfoldable pub command_line : Arguments → List Text
command_line a = put_requests "--copy" a.copies (
    put_requests "--copy-auth-dir" a.auth_directories (
      put_exclusions a.excluded (
        put_checkpoint a.checkpoint (
          put_required a.checkpoint_required (
            (units "--target-uid=" ++ number_text a.uid)
            ∷ (units "--target-gid=" ++ number_text a.gid)
            ∷ (units "--max-bytes=" ++ number_text a.max_bytes)
            ∷ [])))))

-- One line is read as another from other variables, for any fuel that is enough for each.
abbrev pub ReadsAs : List Text → Arguments → List Text → Arguments → Type 0
ReadsAs argv a rest b =
    (fuel : ℕ)
    → length argv ≤ fuel
    → (left : ℕ) × (length rest ≤ left) × (parse_loop fuel argv a ≡ parse_loop left rest b)

pub ReadsAs-refl : (argv : List Text) (a : Arguments) → ReadsAs argv a argv a
ReadsAs-refl argv a = λ fuel h. (fuel, h, refl)

pub ReadsAs-trans :
    (argv more rest : List Text) (a b c : Arguments)
    → ReadsAs argv a more b
    → ReadsAs more b rest c
    → ReadsAs argv a rest c
ReadsAs-trans argv more rest a b c first second = λ fuel h.
    let (left, h, e) = first fuel h in let (last, h, f) = second left h in (last, h, e ∙ f)

pub ReadsAs-round :
    (x : Text) (argv rest : List Text) (a b : Arguments)
    → length rest ≤ length argv
    → take_form (form_of x) x argv a ≡ ok (b, rest)
    → ReadsAs (x ∷ argv) a rest b
unfolding parse_loop
ReadsAs-round x argv rest a b h e zero k = absurd (omega (arith, k))
ReadsAs-round x argv rest a b h e (suc fuel) k =
    (fuel, omega (arith, h, k), rw (parse_loop, e) refl)

no_dashes : (p : Text) → IsTaken p → starts_with (units "--") p ≡ false
unfolding starts_with behind
no_dashes p h = let ((s, e), _) = IsTaken-IsPath p h in rw e refl

pub request_round :
    (k l : String) (name : Text) (r : CopyRequest) (rest : List Text)
    → BothSatisfy IsTaken r
    → parse_pair name k l (r.source ∷ r.target ∷ rest) ≡ ok (r, rest)
unfolding parse_pair next_value path_value
request_round k l name r rest (s, t) = rw (no_dashes r.source s, s, no_dashes r.target t, t) refl

all-AreDigits : (s : Text) → AreDigits s → all is_digit s ≡ true
all-AreDigits [] h = refl
all-AreDigits (c ∷ s) (h, k) = ground (arith, h, all-AreDigits s k)

digits_of-length : (fuel n : ℕ) → n < fuel → (length (digits_of fuel n) == 0) ≡ false
unfolding digits_of
digits_of-length zero n h = absurd (omega (arith, h))
digits_of-length (suc fuel) n h =
    ground (arith, length-append (digits_of fuel (n / 10)) ((n % 10 + b'0') ∷ []))

pub unsigned-number_text :
    (n m : ℕ) (label : Text)
    → n ≤ m
    → n ≤ safe_integer_max
    → unsigned (number_text n) label m ≡ ok n
unfolding unsigned
unsigned-number_text n m label h k =
    rw
      (
        digits_of-length (suc n) n (omega arith),
        all-AreDigits (number_text n) (digits_of-AreDigits (suc n) n),
        decimal-digits_of (suc n) n (omega arith),
        le→leb n safe_integer_max k,
        le→leb n m h,
      )
      refl
