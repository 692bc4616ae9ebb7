-- ===== src/Stage/Closed.antt =====
-- The descriptors that `copyProtectedFile` opens and closes, wherever it ends.
use memeloop_token_center_mi.Common.{
  ℕ, suc, List, ◌∷◌, ◌≡◌, refl, sym, ap, ◌∙◌, not, ◌&&◌, none, some, ◌++◌, Text, units, Result, ok,
  err, throw_if, FileStat,
}
use mathlib.Core.Path.{subst}
use memeloop_token_center_mi.Acts.{
  pure, ◌>>=◌, ◌>>◌, resume, resume_ok, resume-ends, catch, recover, Keeps, Keeps-bind, Keeps-catch,
}
use memeloop_token_center_mi.Stage.Options.{failed, CopyRequest}
use memeloop_token_center_mi.Stage.System.{
  Thrown, staged, as_failure, Act, System, throw, ignore_missing, private_regular, same_file,
  fchown_requested, stat_of, descriptor_stat, assert_parent, refuse_existing, is_fenced, is_owned,
  assert_destination,
}
use memeloop_token_center_mi.Stage.Copy.{
  not_fenced, source_failure, check_opened, open_source, copy_bytes, fill_temporary,
  check_published, publish, clean_up, settle, copy_created, copy_opened, copy_protected_file,
}
use memeloop_token_center_mi.Stage.Counted.{
  IsCounted, itself, IsGained, IsClosed, IsGained-then, then-IsClosed, then-IsGained,
  IsGained-catch, ignored, replaced_state, IsClosed-ok, stat_of-Keeps, descriptor_stat-Keeps,
  ignore_missing-Keeps, assert_parent-Keeps, refuse_existing-Keeps, assert_destination-Keeps,
  fchown_requested-Keeps, copy_bytes-Keeps,
}

-- the descriptor of an open source
abbrev source_fd : ℕ × FileStat → ℕ
source_fd source = source.0

-- The check of an open source returns its descriptor.
abbrev IsChecked : ℕ → Result Thrown (ℕ × FileStat) → Type 0
IsChecked fd (ok source) = source.0 ≡ fd
IsChecked fd (err e) = Unit

module _ {S : Type 0} (sys : System S) (opened : S → List ℕ) (law : IsCounted sys opened) where
  check_opened-Keeps : (listed : FileStat) (fd : ℕ) → Keeps opened (check_opened sys listed fd)
  unfolding check_opened
  check_opened-Keeps listed fd =
      Keeps-bind opened (descriptor_stat sys fd (units "source input")) _
        (descriptor_stat-Keeps sys opened law fd _)
        (λ stat.
          Keeps-bind opened (pure (private_regular stat (units "source input"))) _ (λ s. refl)
            (λ _.
              Keeps-bind opened
                (pure (
                  throw_if (not (same_file listed stat))
                    (staged (failed (units "source input changed while opening")))))
                _ (λ s. refl) (λ _ s. refl)))

  check_opened-IsChecked :
      (listed : FileStat) (fd : ℕ) (s : S) → IsChecked fd (check_opened sys listed fd s).0
  unfolding check_opened
  check_opened-IsChecked listed fd s =
      let P = (λ (r : Result Thrown (ℕ × FileStat) × S). IsChecked fd r.0) in
      let t : S = (descriptor_stat sys fd (units "source input") s).1 in
      resume-ends P (descriptor_stat sys fd (units "source input") s) _
        (λ stat _.
          resume-ends P (private_regular stat (units "source input"), t) _
            (λ _ _.
              resume-ends P
                (
                  throw_if (not (same_file listed stat))
                      (staged (failed (units "source input changed while opening"))),
                  t,
                )
                _ (λ _ _. refl) (λ e. tt))
            (λ e. tt))
        (λ e. tt)

  -- a check of an open source that fails closes it
  checked_source :
      (fds : List ℕ) (fd : ℕ) (r : Result Thrown (ℕ × FileStat) × S)
      → IsChecked fd r.0
      → opened r.1 ≡ fd ∷ fds
      → IsGained opened source_fd fds (recover (λ e. sys.close fd >> throw (source_failure e)) r)
  checked_source fds fd (ok a, s) same h = h ∙ ap (λ x. x ∷ fds) (sym same)
  checked_source fds fd (err e, s) same h =
      let (returns, left) = law.close fd fds s h in
      subst (IsGained opened source_fd fds)
        (sym (resume_ok (sys.close fd s) (λ _. throw (source_failure e)) returns)) left

  open_source-IsGained :
      (path : Text) (s : S) → IsGained opened source_fd (opened s) (open_source sys path s)
  unfolding open_source
  open_source-IsGained path s =
      then-IsGained opened source_fd (opened s) (stat_of sys path (units "source input")) _ s
        (stat_of-Keeps sys opened law path _) refl
        (λ listed t h.
          then-IsGained opened source_fd (opened s)
            (pure (private_regular listed (units "source input"))) _ t (λ s. refl) h
            (λ _ t h.
              IsGained-then opened itself source_fd (opened s)
                (catch (sys.open_read path) (λ e. throw (source_failure e)) t) _
                (IsGained-catch opened itself (opened s) (sys.open_read path t) source_failure (
                  subst (λ fds. IsGained opened itself fds (sys.open_read path t)) h
                    (law.open_read path t)))
                (λ fd u k.
                  checked_source (opened s) fd (check_opened sys listed fd u)
                    (check_opened-IsChecked listed fd u) (check_opened-Keeps listed fd u ∙ k))))

  fill_temporary-Keeps :
      (fd : ℕ) (source : ℕ × FileStat) (max_bytes : ℕ)
      → Keeps opened (fill_temporary sys fd source max_bytes)
  unfolding fill_temporary
  fill_temporary-Keeps fd source max_bytes =
      Keeps-bind opened (sys.fchmod fd 384) _ (law.fchmod fd 384) (λ _.
        Keeps-bind opened (copy_bytes sys (suc (suc max_bytes)) source.0 fd max_bytes 0) _
          (copy_bytes-Keeps sys opened law _ source.0 fd max_bytes 0)
          (λ _. Keeps-bind opened (sys.fchmod fd 384) _ (law.fchmod fd 384) (λ _.
            Keeps-bind opened (sys.fsync fd) _ (law.fsync fd) (λ _.
              Keeps-bind opened (descriptor_stat sys fd (units "staged input")) _
                (descriptor_stat-Keeps sys opened law fd _)
                (λ copied.
                  Keeps-bind opened (pure (throw_if (not (is_fenced copied)) (not_fenced sys))) _
                    (λ s. refl)
                    (λ _.
                      Keeps-bind opened (descriptor_stat sys source.0 (units "source input")) _
                        (descriptor_stat-Keeps sys opened law source.0 _) (λ after s. refl)))))))

  check_published-Keeps :
      (fd : ℕ) (target : Text) (uid gid : ℕ) → Keeps opened (check_published sys fd target uid gid)
  unfolding check_published
  check_published-Keeps fd target uid gid =
      Keeps-bind opened (descriptor_stat sys fd (units "staged input")) _
        (descriptor_stat-Keeps sys opened law fd _)
        (λ published.
          Keeps-bind opened
            (pure
              (throw_if (not (is_fenced published && is_owned uid gid published)) (not_fenced sys)))
            _ (λ s. refl)
            (λ _.
              Keeps-bind opened (assert_destination sys target uid gid (units "staged input")) _
                (assert_destination-Keeps sys opened law target uid gid _) (λ listed s. refl)))

  -- the closing call at the end of the body
  IsClosed-last :
      (fd : ℕ) (fds : List ℕ) (s : S)
      → opened s ≡ fd ∷ fds
      → IsClosed opened fd fds (sys.close fd s)
  IsClosed-last fd fds s h =
      let (returns, left) = law.close fd fds s h in
      IsClosed-ok opened fd fds (sys.close fd s) returns left

  publish-IsClosed :
      (fds : List ℕ) (fd : ℕ) (temporary target : Text) (uid gid : ℕ) (s : S)
      → opened s ≡ fd ∷ fds
      → IsClosed opened fd fds (publish sys fd temporary target uid gid s)
  unfolding publish
  publish-IsClosed fds fd temporary target uid gid s h =
      then-IsClosed opened fd fds (sys.link temporary target) _ s (law.link temporary target) h
        (λ _ s h.
          then-IsClosed opened fd fds (fchown_requested sys fd uid gid) _ s
            (fchown_requested-Keeps sys opened law fd uid gid) h
            (λ _ s h. then-IsClosed opened fd fds (sys.fsync fd) _ s (law.fsync fd) h (λ _ s h.
              then-IsClosed opened fd fds (sys.unlink temporary) _ s (law.unlink temporary) h
                (λ _ s h.
                  then-IsClosed opened fd fds (check_published sys fd target uid gid) _ s
                    (check_published-Keeps fd target uid gid) h
                    (λ _ s h. IsClosed-last fd fds s h)))))

  -- the `finally` block, with two descriptors open or with one
  cleaned :
      (fds : List ℕ) (temporary : Text) (source : ℕ) (s : S)
      → opened s ≡ source ∷ fds
      → opened (clean_up sys none temporary source s).1 ≡ fds
  unfolding clean_up
  cleaned fds temporary source s h =
      let removed : S = (catch (sys.unlink temporary) ignore_missing s).1 in
      let kept : opened removed ≡ opened s =
        Keeps-catch opened (sys.unlink temporary) ignore_missing (law.unlink temporary)
          (ignore_missing-Keeps sys opened law) s in
      ap (λ r. opened r.1)
        (resume_ok (catch (sys.unlink temporary) ignore_missing s) (λ _. sys.close source)
          (ignored (sys.unlink temporary s) (law.removes temporary s)))
      ∙ (law.close source fds removed (kept ∙ h)).1

  cleaned_both :
      (fds : List ℕ) (fd : ℕ) (temporary : Text) (source : ℕ) (s : S)
      → opened s ≡ fd ∷ source ∷ fds
      → opened (clean_up sys (some fd) temporary source s).1 ≡ fds
  unfolding clean_up
  cleaned_both fds fd temporary source s h =
      let (returns, left) = law.close fd (source ∷ fds) s h in
      ap (λ r. opened r.1)
        (resume_ok (sys.close fd s)
          (λ _. catch (sys.unlink temporary) ignore_missing >> sys.close source) returns)
      ∙ cleaned fds temporary source (sys.close fd s).1 left

  -- the body's end, with the source's descriptor open and the target's closed where it returned
  settled :
      (fds : List ℕ) (fd : ℕ) (temporary : Text) (source : ℕ) (r : Result Thrown (Unit {0}) × S)
      → IsClosed opened fd (source ∷ fds) r
      → opened (settle sys (some fd) temporary source r).1 ≡ fds
  unfolding settle
  settled fds fd temporary source (ok tt, s) h =
      ap opened (replaced_state (ok tt) (clean_up sys none temporary source s))
      ∙ cleaned fds temporary source s h
  settled fds fd temporary source (err e, s) h =
      ap opened (replaced_state (err (as_failure e)) (clean_up sys (some fd) temporary source s))
      ∙ cleaned_both fds fd temporary source s h

  created :
      (fds : List ℕ) (source : ℕ × FileStat) (temporary target : Text) (uid gid max_bytes : ℕ)
      (r : Result Thrown ℕ × S)
      → IsGained opened itself (source.0 ∷ fds) r
      → opened (copy_created sys source temporary target uid gid max_bytes r).1 ≡ fds
  unfolding copy_created settle
  created fds source temporary target uid gid max_bytes (err e, s) h =
      ap opened (replaced_state (err (as_failure e)) (clean_up sys none temporary source.0 s))
      ∙ cleaned fds temporary source.0 s h
  created fds source temporary target uid gid max_bytes (ok fd, s) h =
      settled fds fd temporary source.0 _ (
        then-IsClosed opened fd (source.0 ∷ fds) (fill_temporary sys fd source max_bytes) _ s
          (fill_temporary-Keeps fd source max_bytes) h
          (λ _ t k. publish-IsClosed (source.0 ∷ fds) fd temporary target uid gid t k))

  -- what follows the opening of the source
  source_closed :
      (fds : List ℕ) (r : Result Thrown (ℕ × FileStat) × S) (next : ℕ × FileStat → Act S (Unit {0}))
      → IsGained opened source_fd fds r
      → ((source : ℕ × FileStat) (s : S)
          → opened s ≡ source.0 ∷ fds
          → opened (next source s).1 ≡ fds)
      → opened (resume next r).1 ≡ fds
  source_closed fds (ok source, s) next h k = k source s h
  source_closed fds (err e, s) next h k = h

  copied_closed :
      (request : CopyRequest) (uid gid max_bytes : ℕ) (source : ℕ × FileStat) (fds : List ℕ) (s : S)
      → opened s ≡ source.0 ∷ fds
      → opened
          ((sys.suffix >>= λ suffix.
              copy_opened sys source
                (request.target ++ units ".stage-" ++ suffix)
                request.target
                uid
                gid
                max_bytes)
            s).1
        ≡ fds
  unfolding copy_opened
  copied_closed request uid gid max_bytes source fds s h =
      let (suffix, made) = law.makes_suffix s in
      let t : S = (sys.suffix s).1 in
      let temporary : Text = request.target ++ units ".stage-" ++ suffix in
      ap (λ r. opened r.1)
        (resume_ok (sys.suffix s)
          (λ suffix.
            copy_opened sys source (request.target ++ units ".stage-" ++ suffix) request.target uid
              gid max_bytes)
          made)
      ∙ created fds source temporary request.target uid gid max_bytes (sys.open_new temporary t) (
          subst (λ m. IsGained opened itself m (sys.open_new temporary t)) (law.suffix s ∙ h)
            (law.open_new temporary t))

  -- Where `close` returns and closes for the open descriptor that was opened last, the making of a random
  -- name does not throw, and `unlink` throws only where there is no file, a copy leaves exactly the
  -- descriptors open that were, whether it returns or throws, and whatever the other calls answer.
  pub copy_protected_file-Keeps :
      (request : CopyRequest) (uid gid max_bytes : ℕ)
      → Keeps opened (copy_protected_file sys request uid gid max_bytes)
  unfolding copy_protected_file
  copy_protected_file-Keeps request uid gid max_bytes =
      Keeps-bind opened (assert_parent sys request.target (units "copy target")) _
        (assert_parent-Keeps sys opened law request.target _)
        (λ _.
          Keeps-bind opened
            (refuse_existing sys request.target
              (units "refusing to overwrite copy target: " ++ request.target))
            _ (refuse_existing-Keeps sys opened law request.target _)
            (λ _ s.
              source_closed (opened s) (open_source sys request.source s) _
                (open_source-IsGained request.source s)
                (λ source t h. copied_closed request uid gid max_bytes source (opened s) t h)))
