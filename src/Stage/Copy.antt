-- ===== src/Stage/Copy.antt =====
-- `openSource` and `copyProtectedFile` of ops/ci/stage-protected-inputs.ts.
use memeloop_token_center_mi.Common.{
  ℕ, zero, suc, ◌+◌, not, ◌&&◌, Option, none, some, List, [], ◌∷◌, ◌++◌, Text, units, length, drop,
  ltb, if◌then◌else◌, Result, ok, err, throw_if, FileStat,
}
use memeloop_token_center_mi.Acts.{pure, ◌>>=◌, ◌>>◌, catch, replace}
use memeloop_token_center_mi.Json.Print.{digits_of}
use memeloop_token_center_mi.Stage.Options.{failed, out_of_fuel, CopyRequest}
use memeloop_token_center_mi.Stage.System.{
  Thrown, staged, system, Act, System, throw, ignore_missing, as_failure, private_regular,
  same_file, is_fenced, is_owned, fchown_requested, stat_of, descriptor_stat, assert_parent,
  assert_destination, refuse_existing,
}

-- the size of the buffer
abbrev pub buffer_bytes : ℕ
buffer_bytes = 1_048_576

abbrev pub source_failure : Thrown → Thrown
source_failure (staged failure) = staged failure
source_failure (system code) = staged (failed (units "source input could not be opened safely"))

module _ {S : Type 0} (sys : System S) where
  -- what follows the opening in `openSource`
  unfoldable pub check_opened : FileStat → ℕ → Act S (ℕ × FileStat)
  check_opened listed fd = descriptor_stat sys fd (units "source input") >>= λ opened.
      pure (private_regular opened (units "source input"))
      >> (pure (
            throw_if (not (same_file listed opened))
              (staged (failed (units "source input changed while opening"))))
          >> pure (ok (fd, opened)))

  unfoldable pub open_source : Text → Act S (ℕ × FileStat)
  open_source path = stat_of sys path (units "source input") >>= λ listed.
      pure (private_regular listed (units "source input"))
      >> (catch (sys.open_read path) (λ e. throw (source_failure e)) >>= λ fd.
          catch (check_opened listed fd) (λ e. sys.close fd >> throw (source_failure e)))

  -- `while (offset < length)`, on fuel: what is left of the buffer is written. The code repeats a write that
  -- answers 0, for ever if this goes on; then the model runs out of fuel and throws.
  unfoldable pub write_all : ℕ → ℕ → List ℕ → Act S (Unit {0})
  write_all fuel fd [] = pure (ok tt)
  write_all zero fd (b ∷ bytes) = throw (staged out_of_fuel)
  write_all (suc fuel) fd (b ∷ bytes) =
      sys.write fd (b ∷ bytes) >>= λ n. write_all fuel fd (drop n (b ∷ bytes))

  -- a round that read these bytes, and the rounds behind it
  unfoldable pub copy_round : Act S (Unit {0}) → ℕ → ℕ → ℕ → List ℕ → Act S (Unit {0})
  copy_round rest to max_bytes total [] = pure (ok tt)
  copy_round rest to max_bytes total (b ∷ bytes) =
      if ltb max_bytes (total + length (b ∷ bytes))
      then throw (
          staged (
            failed (
              units "source input exceeds the "
              ++ digits_of (suc max_bytes) max_bytes
              ++ units "-byte copy limit")))
      else write_all (length (b ∷ bytes)) to (b ∷ bytes) >> rest

  -- `while (true)`, on fuel
  unfoldable pub copy_bytes : ℕ → ℕ → ℕ → ℕ → ℕ → Act S (Unit {0})
  copy_bytes zero from to max_bytes total = throw (staged out_of_fuel)
  copy_bytes (suc fuel) from to max_bytes total = sys.read from buffer_bytes >>= λ bytes.
      copy_round (copy_bytes fuel from to max_bytes (total + length bytes)) to max_bytes total bytes

  abbrev pub not_fenced : Thrown
  not_fenced = staged (failed (units "staged input could not be fenced"))

  -- up to the publication: the temporary file is a private copy of a source that did not change; the
  -- fuel is two rounds more than the bytes allowed, since each round but the last reads one at least
  unfoldable pub fill_temporary : ℕ → ℕ × FileStat → ℕ → Act S (Unit {0})
  fill_temporary fd source max_bytes =
      sys.fchmod fd 384
      >> (copy_bytes (suc (suc max_bytes)) source.0 fd max_bytes 0
          >> (sys.fchmod fd 384
              >> (sys.fsync fd
                  >> (descriptor_stat sys fd (units "staged input") >>= λ copied.
                      pure (throw_if (not (is_fenced copied)) not_fenced)
                      >> (descriptor_stat sys source.0 (units "source input") >>= λ after. pure (
                          throw_if (not (same_file source.1 after))
                            (staged (failed (units "source input changed while copying")))))))))

  -- the checks behind the publication
  unfoldable pub check_published : ℕ → Text → ℕ → ℕ → Act S (Unit {0})
  check_published fd target uid gid = descriptor_stat sys fd (units "staged input") >>= λ published.
      pure (throw_if (not (is_fenced published && is_owned uid gid published)) not_fenced)
      >> (assert_destination sys target uid gid (units "staged input") >>= λ listed. pure (
          throw_if (not (same_file published listed))
            (staged (failed (units "staged input changed after publication")))))

  unfoldable pub publish : ℕ → Text → Text → ℕ → ℕ → Act S (Unit {0})
  publish fd temporary target uid gid =
      sys.link temporary target
      >> (fchown_requested sys fd uid gid
          >> (sys.fsync fd
              >> (sys.unlink temporary >> (check_published fd target uid gid >> sys.close fd))))

  -- the `finally` block: `targetFd` where it is not -1
  unfoldable pub clean_up : Option ℕ → Text → ℕ → Act S (Unit {0})
  clean_up none temporary source_fd =
      catch (sys.unlink temporary) ignore_missing >> sys.close source_fd
  clean_up (some fd) temporary source_fd =
      sys.close fd >> (catch (sys.unlink temporary) ignore_missing >> sys.close source_fd)

  -- what follows the body: the descriptor is still to be closed where the body throws
  unfoldable pub settle :
      Option ℕ → Text → ℕ → Result Thrown (Unit {0}) × S → Result Thrown (Unit {0}) × S
  settle fd temporary source_fd (ok tt, s) = replace (ok tt) (clean_up none temporary source_fd s)
  settle fd temporary source_fd (err e, s) =
      replace (err (as_failure e)) (clean_up fd temporary source_fd s)

  -- what follows the creation of the temporary file
  unfoldable pub copy_created :
      ℕ × FileStat → Text → Text → ℕ → ℕ → ℕ → Result Thrown ℕ × S → Result Thrown (Unit {0}) × S
  copy_created source temporary target uid gid max_bytes (err e, s) =
      settle none temporary source.0 (err e, s)
  copy_created source temporary target uid gid max_bytes (ok fd, s) =
      settle (some fd) temporary source.0
        ((fill_temporary fd source max_bytes >> publish fd temporary target uid gid) s)

  unfoldable pub copy_opened : ℕ × FileStat → Text → Text → ℕ → ℕ → ℕ → Act S (Unit {0})
  copy_opened source temporary target uid gid max_bytes s =
      copy_created source temporary target uid gid max_bytes (sys.open_new temporary s)

  unfoldable pub copy_protected_file : CopyRequest → ℕ → ℕ → ℕ → Act S (Unit {0})
  copy_protected_file request uid gid max_bytes =
      assert_parent sys request.target (units "copy target")
      >> (refuse_existing sys request.target
            (units "refusing to overwrite copy target: " ++ request.target)
          >> (open_source request.source >>= λ source. sys.suffix >>= λ suffix.
              copy_opened source (request.target ++ units ".stage-" ++ suffix) request.target uid
                gid max_bytes))
