-- ===== src/Stage/Ends.antt =====
-- The loop of `parseArguments` ends: each round takes one argument at least.
use memeloop_token_center_mi.Common.{
  ℕ, zero, suc, ◌≤◌, List, [], ◌∷◌, Text, length, arith, String, Post, Post-bind, Post-if,
}
use memeloop_token_center_mi.Routes.Strings.{starts_with}
use memeloop_token_center_mi.Stage.Options.{
  StageFailure, failed, help, out_of_fuel, Arguments, defaults, next_value, path_value, unsigned,
  relative_directory, is_path, Form, help_form, copy_form, auth_form, exclude_form, checkpoint_form,
  required_form, unknown_form, copy_inline, auth_inline, exclude_inline, checkpoint_inline,
  limit_form, limit_inline, form_of,
}
use memeloop_token_center_mi.Stage.Args.{
  parse_pair, inline_halves, inline_pair, option_name, maximum_of, take_form, parse_loop,
  check_targets, targets, check_arguments, parse_arguments,
}

-- an error of the code's own
abbrev pub IsThrown : StageFailure → Type 0
IsThrown help = Unit
IsThrown (failed message) = Unit
IsThrown out_of_fuel = ⊥

abbrev pub Returned : {A : Type 0} → A → Type 0
Returned a = Unit

-- At most so many arguments are left.
abbrev Leaves : {A : Type 0} → ℕ → A × List Text → Type 0
Leaves n r = length r.1 ≤ n

next_value-Leaves :
    (rest : List Text) (option : Text)
    → Post (Leaves (length rest)) IsThrown (next_value rest option)
unfolding next_value
next_value-Leaves [] option = tt
next_value-Leaves (v ∷ rest) option =
    Post-if (Leaves (suc (length rest))) IsThrown (starts_with _ v) _ _ tt (omega arith)

path_value-IsThrown : (v : Text) (l : String) → Post Returned IsThrown (path_value v l)
unfolding path_value
path_value-IsThrown v l = Post-if Returned IsThrown (is_path v) _ _ tt tt

relative_directory-IsThrown : (v : Text) → Post Returned IsThrown (relative_directory v)
unfolding relative_directory
relative_directory-IsThrown v = ground arith

unsigned-IsThrown : (v l : Text) (m : ℕ) → Post Returned IsThrown (unsigned v l m)
unfolding unsigned
unsigned-IsThrown v l m = ground arith

parse_pair-Leaves :
    (option : Text) (k l : String) (rest : List Text)
    → Post (Leaves (length rest)) IsThrown (parse_pair option k l rest)
unfolding parse_pair
parse_pair-Leaves option k l rest =
    Post-bind (Leaves (length rest)) _ IsThrown (next_value rest option) _
      (next_value-Leaves rest option)
      (λ first n.
        Post-bind Returned _ IsThrown (path_value first.0 k) _ (path_value-IsThrown first.0 k)
          (λ _ _.
            Post-bind (Leaves (length first.1)) _ IsThrown (next_value first.1 option) _
              (next_value-Leaves first.1 option)
              (λ second m.
                Post-bind Returned _ IsThrown (path_value second.0 l) _
                  (path_value-IsThrown second.0 l) (λ _ _. omega (arith, n, m)))))

inline_pair-IsThrown :
    (argument value : Text) (k l : String) → Post Returned IsThrown (inline_pair argument value k l)
unfolding inline_pair inline_halves path_value
inline_pair-IsThrown argument value k l = ground arith

take_form-Leaves :
    (form : Form) (argument : Text) (rest : List Text) (a : Arguments)
    → Post (Leaves (length rest)) IsThrown (take_form form argument rest a)
unfolding take_form
take_form-Leaves help_form argument rest a = tt
take_form-Leaves unknown_form argument rest a = tt
take_form-Leaves required_form argument rest a = omega arith
take_form-Leaves copy_form argument rest a =
    ground (arith, parse_pair-Leaves argument "copy source" "copy target" rest)
take_form-Leaves auth_form argument rest a =
    ground (arith, parse_pair-Leaves argument "auth source directory" "auth target directory" rest)
take_form-Leaves exclude_form argument rest a =
    Post-bind (Leaves (length rest)) _ IsThrown (next_value rest argument) _
      (next_value-Leaves rest argument)
      (λ v n.
        Post-bind Returned _ IsThrown (relative_directory v.0) _ (relative_directory-IsThrown v.0)
          (λ _ _. n))
take_form-Leaves checkpoint_form argument rest a =
    Post-bind (Leaves (length rest)) _ IsThrown (next_value rest argument) _
      (next_value-Leaves rest argument)
      (λ v n.
        Post-bind Returned _ IsThrown (path_value v.0 "checkpoint") _
          (path_value-IsThrown v.0 "checkpoint") (λ _ _. n))
take_form-Leaves (limit_form limit) argument rest a =
    Post-bind (Leaves (length rest)) _ IsThrown (next_value rest argument) _
      (next_value-Leaves rest argument)
      (λ v n.
        Post-bind Returned _ IsThrown (unsigned v.0 argument (maximum_of limit)) _
          (unsigned-IsThrown v.0 argument (maximum_of limit)) (λ _ _. n))
take_form-Leaves (copy_inline value) argument rest a =
    ground (arith, inline_pair-IsThrown argument value "copy source" "copy target")
take_form-Leaves (auth_inline value) argument rest a =
    ground
      (arith, inline_pair-IsThrown argument value "auth source directory" "auth target directory")
take_form-Leaves (exclude_inline value) argument rest a =
    ground (arith, relative_directory-IsThrown value)
take_form-Leaves (checkpoint_inline value) argument rest a =
    ground (arith, path_value-IsThrown value "checkpoint")
take_form-Leaves (limit_inline limit value) argument rest a =
    Post-bind Returned _ IsThrown (unsigned value (option_name argument) (maximum_of limit)) _
      (unsigned-IsThrown value (option_name argument) (maximum_of limit)) (λ _ _. omega arith)

parse_loop-IsThrown :
    (fuel : ℕ) (argv : List Text) (a : Arguments)
    → length argv ≤ fuel
    → Post Returned IsThrown (parse_loop fuel argv a)
unfolding parse_loop
parse_loop-IsThrown fuel [] a h = tt
parse_loop-IsThrown zero (x ∷ argv) a h = absurd (omega (arith, h))
parse_loop-IsThrown (suc fuel) (x ∷ argv) a h =
    Post-bind (Leaves (length argv)) Returned IsThrown (take_form (form_of x) x argv a) _
      (take_form-Leaves (form_of x) x argv a)
      (λ r n. parse_loop-IsThrown fuel r.1 r.0 (omega (arith, h, n)))

check_targets-IsThrown : (seen ts : List Text) → Post Returned IsThrown (check_targets seen ts)
unfolding check_targets
check_targets-IsThrown seen [] = tt
check_targets-IsThrown seen (t ∷ ts) = ground (arith, check_targets-IsThrown (t ∷ seen) ts)

check_arguments-IsThrown : (a : Arguments) → Post Returned IsThrown (check_arguments a)
unfolding check_arguments
check_arguments-IsThrown a = ground (arith, check_targets-IsThrown [] (targets a))

-- The fuel of the loop always suffices: a command line is accepted, asks for help, or is refused with
-- an error of the code's.
pub parse_arguments-IsThrown : (argv : List Text) → Post Returned IsThrown (parse_arguments argv)
unfolding parse_arguments
parse_arguments-IsThrown argv =
    Post-bind Returned Returned IsThrown (parse_loop (length argv) argv defaults) check_arguments
      (parse_loop-IsThrown (length argv) argv defaults (omega arith))
      (λ a _. check_arguments-IsThrown a)
