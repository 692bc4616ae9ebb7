-- ===== src/Stage/Accepted.antt =====
-- What the loop of `parseArguments` keeps of its variables.
use memeloop_token_center_mi.Stage.Readers.{
  BothSatisfy, IsTaken, IsKept, AreKept, path_value-IsTaken, relative_directory-IsKept,
}
use memeloop_token_center_mi.Stage.Args.{
  option_name, parse_pair, inline_halves, inline_pair, maximum_of, with_limit, take_form,
  parse_loop,
}
use memeloop_token_center_mi.Common.{
  ℕ, zero, suc, ◌≤◌, ◌≡◌, List, [], ◌∷◌, Text, ok, >>=-eq-ok, ok_inj, All-append, arith, String,
}
use mathlib.Core.Path.{subst}
use memeloop_token_center_mi.Json.Number.{safe_integer_max}
use memeloop_token_center_mi.Stage.Options.{
  Staged, CopyRequest, Arguments, unsigned, path_value, next_value, relative_directory, Limit,
  target_uid, target_gid, max_bytes_limit, Form, help_form, copy_form, auth_form, exclude_form,
  checkpoint_form, required_form, unknown_form, copy_inline, auth_inline, exclude_inline,
  checkpoint_inline, limit_form, limit_inline, form_of,
}

unsigned-le :
    (v label : Text) (m n : ℕ) → unsigned v label m ≡ ok n → (n ≤ m) × (n ≤ safe_integer_max)
unfolding unsigned
unsigned-le v label m n h = (ground (arith, h), ground (arith, h))

parse_pair-BothSatisfy :
    (option : Text) (k l : String) (rest : List Text) {r : CopyRequest × List Text}
    → parse_pair option k l rest ≡ ok r
    → (BothSatisfy IsTaken) r.0
unfolding parse_pair
parse_pair-BothSatisfy option k l rest h =
    let (first, _, h) = >>=-eq-ok (next_value rest option) _ h in
    let (source, one, h) = >>=-eq-ok (path_value first.0 k) _ h in
    let (second, _, h) = >>=-eq-ok (next_value first.1 option) _ h in
    let (target, two, h) = >>=-eq-ok (path_value second.0 l) _ h in
    subst (λ (r : CopyRequest × List Text). (BothSatisfy IsTaken) r.0) (ok_inj h)
      (path_value-IsTaken first.0 k source one, path_value-IsTaken second.0 l target two)

inline_pair-BothSatisfy :
    (argument value : Text) (k l : String) (r : CopyRequest)
    → inline_pair argument value k l ≡ ok r
    → (BothSatisfy IsTaken) r
unfolding inline_pair
inline_pair-BothSatisfy argument value k l r h =
    let (halves, _, h) = >>=-eq-ok (inline_halves argument value) _ h in
    let (source, one, h) = >>=-eq-ok (path_value halves.0 k) _ h in
    let (target, two, h) = >>=-eq-ok (path_value halves.1 l) _ h in
    subst (BothSatisfy IsTaken) (ok_inj h)
      (path_value-IsTaken halves.0 k source one, path_value-IsTaken halves.1 l target two)

with_limit-AreKept :
    (l : Limit) (n : ℕ) (a : Arguments)
    → (n ≤ maximum_of l) × (n ≤ safe_integer_max)
    → AreKept a
    → AreKept (with_limit l n a)
with_limit-AreKept target_uid n a (h, _) (c, d, e, k, _, g, m) = (c, d, e, k, h, g, m)
with_limit-AreKept target_gid n a (h, _) (c, d, e, k, u, _, m) = (c, d, e, k, u, h, m)
with_limit-AreKept max_bytes_limit n a (_, h) (c, d, e, k, u, g, _) = (c, d, e, k, u, g, h)

kept :
    {a : Arguments} {rest : List Text} (b : Arguments × List Text)
    → ◌≡◌ {A = Staged (Arguments × List Text)} (ok (a, rest)) (ok b)
    → AreKept a
    → AreKept b.0
kept b h v = subst (λ (x : Arguments × List Text). AreKept x.0) (ok_inj h) v

take_form-AreKept :
    (form : Form) (argument : Text) (rest : List Text) (a : Arguments) (b : Arguments × List Text)
    → AreKept a
    → take_form form argument rest a ≡ ok b
    → AreKept b.0
unfolding take_form
take_form-AreKept help_form argument rest a b v h = cc
take_form-AreKept unknown_form argument rest a b v h = cc
take_form-AreKept required_form argument rest a b v h = kept b h v
take_form-AreKept copy_form argument rest a b (c, d, e, k, u, g, m) h =
    let (p, parsed, h) = >>=-eq-ok (parse_pair argument "copy source" "copy target" rest) _ h in
    kept b h (
      All-append (BothSatisfy IsTaken) a.copies _ c
          (parse_pair-BothSatisfy argument _ _ rest parsed, tt),
      d,
      e,
      k,
      u,
      g,
      m,
    )
take_form-AreKept auth_form argument rest a b (c, d, e, k, u, g, m) h =
    let (p, parsed, h) =
      >>=-eq-ok (parse_pair argument "auth source directory" "auth target directory" rest) _ h in
    kept b h (
      c,
      All-append (BothSatisfy IsTaken) a.auth_directories _ d
          (parse_pair-BothSatisfy argument _ _ rest parsed, tt),
      e,
      k,
      u,
      g,
      m,
    )
take_form-AreKept exclude_form argument rest a b (c, d, e, k, u, g, m) h =
    let (v, _, h) = >>=-eq-ok (next_value rest argument) _ h in
    let (path, parsed, h) = >>=-eq-ok (relative_directory v.0) _ h in
    kept b h (
      c,
      d,
      All-append IsKept a.excluded _ e (relative_directory-IsKept v.0 path parsed, tt),
      k,
      u,
      g,
      m,
    )
take_form-AreKept checkpoint_form argument rest a b (c, d, e, k, u, g, m) h =
    let (v, _, h) = >>=-eq-ok (next_value rest argument) _ h in
    let (path, parsed, h) = >>=-eq-ok (path_value v.0 "checkpoint") _ h in
    kept b h (c, d, e, path_value-IsTaken v.0 _ path parsed, u, g, m)
take_form-AreKept (copy_inline value) argument rest a b (c, d, e, k, u, g, m) h =
    let (p, parsed, h) = >>=-eq-ok (inline_pair argument value "copy source" "copy target") _ h in
    kept b h (
      All-append (BothSatisfy IsTaken) a.copies _ c
          (inline_pair-BothSatisfy argument value _ _ p parsed, tt),
      d,
      e,
      k,
      u,
      g,
      m,
    )
take_form-AreKept (auth_inline value) argument rest a b (c, d, e, k, u, g, m) h =
    let (p, parsed, h) =
      >>=-eq-ok (inline_pair argument value "auth source directory" "auth target directory") _ h in
    kept b h (
      c,
      All-append (BothSatisfy IsTaken) a.auth_directories _ d
          (inline_pair-BothSatisfy argument value _ _ p parsed, tt),
      e,
      k,
      u,
      g,
      m,
    )
take_form-AreKept (exclude_inline value) argument rest a b (c, d, e, k, u, g, m) h =
    let (path, parsed, h) = >>=-eq-ok (relative_directory value) _ h in
    kept b h (
      c,
      d,
      All-append IsKept a.excluded _ e (relative_directory-IsKept value path parsed, tt),
      k,
      u,
      g,
      m,
    )
take_form-AreKept (checkpoint_inline value) argument rest a b (c, d, e, k, u, g, m) h =
    let (path, parsed, h) = >>=-eq-ok (path_value value "checkpoint") _ h in
    kept b h (c, d, e, path_value-IsTaken value _ path parsed, u, g, m)
take_form-AreKept (limit_form limit) argument rest a b v h =
    let (w, _, h) = >>=-eq-ok (next_value rest argument) _ h in
    let (n, parsed, h) = >>=-eq-ok (unsigned w.0 argument (maximum_of limit)) _ h in
    kept b h (with_limit-AreKept limit n a (unsigned-le w.0 argument (maximum_of limit) n parsed) v)
take_form-AreKept (limit_inline limit value) argument rest a b v h =
    let (n, parsed, h) = >>=-eq-ok (unsigned value (option_name argument) (maximum_of limit)) _ h in
    kept b h (
      with_limit-AreKept limit n a
        (unsigned-le value (option_name argument) (maximum_of limit) n parsed) v)

pub parse_loop-AreKept :
    (fuel : ℕ) (argv : List Text) (a b : Arguments)
    → AreKept a
    → parse_loop fuel argv a ≡ ok b
    → AreKept b
unfolding parse_loop
parse_loop-AreKept fuel [] a b v h = subst AreKept (ok_inj h) v
parse_loop-AreKept zero (x ∷ argv) a b v h = cc
parse_loop-AreKept (suc fuel) (x ∷ argv) a b v h =
    let (r, one, h) = >>=-eq-ok (take_form (form_of x) x argv a) _ h in
    parse_loop-AreKept fuel r.1 r.0 b (take_form-AreKept (form_of x) x argv a r v one) h
