-- ===== src/Stage/Counted.antt =====
-- What `copyProtectedFile` calls and which descriptors are open.
use memeloop_token_center_mi.Common.{
  ℕ, zero, suc, ◌+◌, ◌≡◌, refl, ◌∙◌, inl, inr, true, List, [], ◌∷◌, ◌++◌, Text, units, length, drop,
  ltb, Bool-cases, Result, ok, err,
}
use memeloop_token_center_mi.Acts.{
  pure, ◌>>=◌, resume, resume-ends, recover, replace, Keeps, Keeps-bind, Keeps-catch,
}
use memeloop_token_center_mi.Stage.Options.{failed}
use memeloop_token_center_mi.Stage.System.{
  Thrown, staged, Act, System, throw, is_missing, ignore_missing, preserve_current_ownership,
  fchown_requested, stat_of, descriptor_stat, assert_parent, assert_destination, refuse_existing,
  check_destination,
}
use memeloop_token_center_mi.Stage.Copy.{buffer_bytes, write_all, copy_round, copy_bytes}

-- A call that opens a descriptor where it returns, in addition to those open.
abbrev pub IsGained :
    {S A : Type 0} → (S → List ℕ) → (A → ℕ) → List ℕ → Result Thrown A × S → Type 0
IsGained opened key fds (ok a, s) = opened s ≡ key a ∷ fds
IsGained opened key fds (err e, s) = opened s ≡ fds

-- A part of the code that closes a descriptor where it returns.
abbrev pub IsClosed : {S A : Type 0} → (S → List ℕ) → ℕ → List ℕ → Result Thrown A × S → Type 0
IsClosed opened fd fds (ok a, s) = opened s ≡ fds
IsClosed opened fd fds (err e, s) = opened s ≡ fd ∷ fds

-- the descriptor that a call which opens one returns
abbrev pub itself : ℕ → ℕ
itself fd = fd

abbrev pub IsRemoved : Result Thrown (Unit {0}) → Type 0
IsRemoved (ok _) = Unit
IsRemoved (err e) = is_missing e ≡ true

-- What is relied on of the descriptors, of which `opened` are open, the last one opened first: only the
-- calls that open and close change them, `close` returns for the one opened last and then it is no longer
-- open, the making of a name does not throw, and `unlink` throws only where there is nothing. Of `close`
-- for a descriptor that is not open nothing is said.
pub record IsCounted {S : Type 0} (sys : System S) (opened : S → List ℕ) : Type 0 where
  pub suffix : Keeps opened sys.suffix
  pub makes_suffix : (s : S) → (text : Text) × ((sys.suffix s).0 ≡ ok text)
  pub lstat : (path : Text) → Keeps opened (sys.lstat path)
  pub fstat : (fd : ℕ) → Keeps opened (sys.fstat fd)
  pub open_read : (path : Text) (s : S) → IsGained opened itself (opened s) (sys.open_read path s)
  pub open_new : (path : Text) (s : S) → IsGained opened itself (opened s) (sys.open_new path s)
  pub close :
      (fd : ℕ) (fds : List ℕ) (s : S)
      → opened s ≡ fd ∷ fds
      → ((sys.close fd s).0 ≡ ok tt) × (opened (sys.close fd s).1 ≡ fds)
  pub read : (fd n : ℕ) → Keeps opened (sys.read fd n)
  pub write : (fd : ℕ) (bytes : List ℕ) → Keeps opened (sys.write fd bytes)
  pub fsync : (fd : ℕ) → Keeps opened (sys.fsync fd)
  pub fchmod : (fd mode : ℕ) → Keeps opened (sys.fchmod fd mode)
  pub fchown : (fd uid gid : ℕ) → Keeps opened (sys.fchown fd uid gid)
  pub link : (from to : Text) → Keeps opened (sys.link from to)
  pub unlink : (path : Text) → Keeps opened (sys.unlink path)
  pub removes : (path : Text) (s : S) → IsRemoved (sys.unlink path s).0

module _ {S A B : Type 0} (opened : S → List ℕ) where
  -- what follows a call that opens
  pub IsGained-then :
      (key : A → ℕ) (key' : B → ℕ) (fds : List ℕ) (r : Result Thrown A × S) (next : A → Act S B)
      → IsGained opened key fds r
      → ((a : A) (s : S) → opened s ≡ key a ∷ fds → IsGained opened key' fds (next a s))
      → IsGained opened key' fds (resume next r)
  IsGained-then key key' fds (ok a, s) next h k = k a s h
  IsGained-then key key' fds (err e, s) next h k = h

  pub then-IsClosed :
      (fd : ℕ) (fds : List ℕ) (act : Act S A) (next : A → Act S B) (s : S)
      → Keeps opened act
      → opened s ≡ fd ∷ fds
      → ((a : A) (t : S) → opened t ≡ fd ∷ fds → IsClosed opened fd fds (next a t))
      → IsClosed opened fd fds ((act >>= next) s)
  then-IsClosed fd fds act next s keeps h k =
      resume-ends (IsClosed opened fd fds) (act s) next (λ a _. k a (act s).1 (keeps s ∙ h))
        (λ e. keeps s ∙ h)

  pub then-IsGained :
      (key : B → ℕ) (fds : List ℕ) (act : Act S A) (next : A → Act S B) (s : S)
      → Keeps opened act
      → opened s ≡ fds
      → ((a : A) (t : S) → opened t ≡ fds → IsGained opened key fds (next a t))
      → IsGained opened key fds ((act >>= next) s)
  then-IsGained key fds act next s keeps h k =
      resume-ends (IsGained opened key fds) (act s) next (λ a _. k a (act s).1 (keeps s ∙ h))
        (λ e. keeps s ∙ h)

pub IsGained-catch :
    {S A : Type 0} (opened : S → List ℕ) (key : A → ℕ) (fds : List ℕ) (r : Result Thrown A × S)
    (f : Thrown → Thrown)
    → IsGained opened key fds r
    → IsGained opened key fds (recover (λ e. throw (f e)) r)
IsGained-catch opened key fds (ok a, s) f h = h
IsGained-catch opened key fds (err e, s) f h = h

pub IsClosed-ok :
    {S : Type 0} (opened : S → List ℕ) (fd : ℕ) (fds : List ℕ) (r : Result Thrown (Unit {0}) × S)
    → r.0 ≡ ok tt
    → opened r.1 ≡ fds
    → IsClosed opened fd fds r
IsClosed-ok opened fd fds (ok tt, s) h k = k
IsClosed-ok opened fd fds (err e, s) h k = cc

pub ignored :
    {S : Type 0} (r : Result Thrown (Unit {0}) × S)
    → IsRemoved r.0
    → (recover ignore_missing r).0 ≡ ok tt
ignored (ok tt, s) h = refl
ignored (err e, s) h = rw h refl

pub replaced_state :
    {S A : Type 0} (r : Result Thrown A) (x : Result Thrown (Unit {0}) × S) → (replace r x).1 ≡ x.1
replaced_state r (ok u, s) = refl
replaced_state r (err e, s) = refl

module _ {S : Type 0} (sys : System S) (opened : S → List ℕ) (law : IsCounted sys opened) where
  pub stat_of-Keeps : (path label : Text) → Keeps opened (stat_of sys path label)
  unfolding stat_of
  stat_of-Keeps path label = Keeps-catch opened (sys.lstat path) _ (law.lstat path) (λ e s. refl)

  pub descriptor_stat-Keeps : (fd : ℕ) (label : Text) → Keeps opened (descriptor_stat sys fd label)
  unfolding descriptor_stat
  descriptor_stat-Keeps fd label = Keeps-catch opened (sys.fstat fd) _ (law.fstat fd) (λ e s. refl)

  pub ignore_missing-Keeps : (e : Thrown) → Keeps opened (ignore_missing e)
  ignore_missing-Keeps e s = elim (Bool-cases (is_missing e)) [
    | inl h ↦ rw h refl
    | inr h ↦ rw h refl
  ]

  pub assert_parent-Keeps : (path label : Text) → Keeps opened (assert_parent sys path label)
  unfolding assert_parent
  assert_parent-Keeps path label =
      Keeps-bind opened (stat_of sys (sys.dirname path) (label ++ units " parent")) _
        (stat_of-Keeps _ _) (λ stat s. refl)

  pub refuse_existing-Keeps :
      (path message : Text) → Keeps opened (refuse_existing sys path message)
  unfolding refuse_existing
  refuse_existing-Keeps path message =
      Keeps-catch opened (sys.lstat path >>= λ _. throw (staged (failed message))) _
        (Keeps-bind opened (sys.lstat path) _ (law.lstat path) (λ stat s. refl))
        ignore_missing-Keeps

  pub assert_destination-Keeps :
      (path : Text) (uid gid : ℕ) (label : Text)
      → Keeps opened (assert_destination sys path uid gid label)
  unfolding assert_destination
  assert_destination-Keeps path uid gid label =
      Keeps-bind opened (stat_of sys path label) _ (stat_of-Keeps path label) (λ stat.
        Keeps-bind opened (pure (check_destination uid gid label stat)) _ (λ s. refl) (λ u s. refl))

  pub fchown_requested-Keeps : (fd uid gid : ℕ) → Keeps opened (fchown_requested sys fd uid gid)
  unfolding fchown_requested
  fchown_requested-Keeps fd uid gid s = elim (Bool-cases (preserve_current_ownership sys uid gid)) [
    | inl h ↦ rw h refl
    | inr h ↦ rw h (law.fchown fd uid gid s)
  ]

  write_all-Keeps : (fuel fd : ℕ) (bytes : List ℕ) → Keeps opened (write_all sys fuel fd bytes)
  unfolding write_all
  write_all-Keeps zero fd [] s = refl
  write_all-Keeps (suc fuel) fd [] s = refl
  write_all-Keeps zero fd (b ∷ bytes) s = refl
  write_all-Keeps (suc fuel) fd (b ∷ bytes) s =
      Keeps-bind opened (sys.write fd (b ∷ bytes)) _ (law.write fd (b ∷ bytes))
        (λ n. write_all-Keeps fuel fd (drop n (b ∷ bytes))) s

  copy_round-Keeps :
      (rest : Act S (Unit {0})) (to max_bytes total : ℕ) (bytes : List ℕ)
      → Keeps opened rest
      → Keeps opened (copy_round sys rest to max_bytes total bytes)
  unfolding copy_round
  copy_round-Keeps rest to max_bytes total [] h s = refl
  copy_round-Keeps rest to max_bytes total (b ∷ bytes) h s =
      elim (Bool-cases (ltb max_bytes (total + length (b ∷ bytes)))) [
        | inl over ↦ rw over refl
        | inr fits ↦ rw fits (
            Keeps-bind opened (write_all sys (length (b ∷ bytes)) to (b ∷ bytes)) (λ _. rest)
              (write_all-Keeps _ to (b ∷ bytes)) (λ _. h) s)
      ]

  pub copy_bytes-Keeps :
      (fuel from to max_bytes total : ℕ)
      → Keeps opened (copy_bytes sys fuel from to max_bytes total)
  unfolding copy_bytes
  copy_bytes-Keeps zero from to max_bytes total s = refl
  copy_bytes-Keeps (suc fuel) from to max_bytes total s =
      Keeps-bind opened (sys.read from buffer_bytes) _ (law.read from buffer_bytes)
        (λ bytes.
          copy_round-Keeps _ to max_bytes total bytes
            (copy_bytes-Keeps fuel from to max_bytes (total + length bytes)))
        s
