-- ===== src/Stream/Verify.antt =====
-- `verifyDestination` of ops/lib/cpa-stream.ts: what was written is read again.
use memeloop_token_center_mi.Common.{
  joined, ℕ, zero, suc, ◌+◌, ◌-◌, min, Bool, not, ◌&&◌, List, [], ◌∷◌, length, text_eq, ltb, ◌==◌,
  if◌then◌else◌, ok, err, throw_if, ◌>>=◌, ◌>>◌, FileStat, is_file,
}
use memeloop_token_center_mi.Stream.Wire.{Bytes, thrown, out_of_fuel, Copied}
use memeloop_token_center_mi.Stream.Receiver.{Plan}
use memeloop_token_center_mi.Stream.Sender.{unchanged}

-- What the verification meets: whether the signal is aborted at the round that begins behind so many
-- bytes, the time since its start there, what a read there returns of so many bytes wanted, and the
-- stats before and after.
pub record Reread : Type 0 where
  pub aborted : ℕ → Bool
  pub elapsed : ℕ → ℕ
  pub read : ℕ → ℕ → Bytes
  pub before : FileStat
  pub after_open : FileStat
  pub after_path : FileStat

-- `verify` is the budget, in the unit of the clock.
module _ (plan : Plan) (verify : ℕ) (file : Reread) where
  -- what a round tests, and the piece it reads
  unfoldable pub verify_piece : ℕ → Copied Bytes
  verify_piece copied = do
    throw_if (file.aborted copied) (thrown "TRANSFER_CANCELLED")
    throw_if (not (ltb (file.elapsed copied) verify)) (thrown "VERIFY_DEADLINE")
    let piece : Bytes = file.read copied (min plan.chunk_size (plan.size - copied))
    throw_if (length piece == 0) (thrown "DESTINATION_TRUNCATED")
    ok piece

  -- `while (copied < plan.size)`, on fuel: the pieces read
  unfoldable pub verify_data : ℕ → ℕ → Copied (List Bytes)
  verify_data zero copied = err out_of_fuel
  verify_data (suc fuel) copied =
      let more = verify_piece copied >>= λ piece.
      verify_data fuel (copied + length piece) >>= λ pieces. ok (piece ∷ pieces) in
      if ltb copied plan.size then more else ok []

  -- The fuel is one round more than the bytes: every round reads one byte at least.
  unfoldable pub verify_destination : (Bytes → Bytes) → Copied (Unit {0})
  verify_destination digest = do
    throw_if (not (is_file file.before && file.before.size == plan.size))
        (thrown "DESTINATION_SIZE")
    pieces ← verify_data (suc plan.size) 0
    throw_if (not (unchanged file.before file.after_open && unchanged file.before file.after_path))
        (thrown "DESTINATION_CHANGED")
    throw_if (not (text_eq (digest (joined pieces)) plan.sha256))
        (thrown "DESTINATION_HASH_MISMATCH")
