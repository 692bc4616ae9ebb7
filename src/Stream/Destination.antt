-- ===== src/Stream/Destination.antt =====
-- `receiveFile` of ops/lib/cpa-stream.ts: the checks of the directory, the transfer, the verification
-- and the publication of the file and its receipt.
use memeloop_token_center_mi.Common.{
  ℕ, ◌+◌, ◌%◌, Bool, true, false, not, ◌&&◌, List, [], ◌∷◌, ◌++◌, Text, units, leb, ◌==◌, ok,
  throw_if, FileStat, is_directory, is_symbolic_link,
}
use memeloop_token_center_mi.Acts.{Acting, pure, ◌>>=◌, ◌>>◌, finally}
use memeloop_token_center_mi.Json.Parser.{Value, bool, int, str, obj, end, field}
use memeloop_token_center_mi.Json.Print.{print}
use memeloop_token_center_mi.Stream.Wire.{Bytes, CopyError, thrown, Wire, is_empty, frame}
use memeloop_token_center_mi.Stream.Receiver.{Plan, Surroundings, receive_stream}
use memeloop_token_center_mi.Stream.Profiles.{CopyPlan}
use memeloop_token_center_mi.Stream.Verify.{Reread, verify_destination}

-- The calls of `node:fs/promises` that the receiver makes, on a state of the file system.
-- `sync_directory` opens, synchronises and closes one, and `open_directory`, `sync` and `close` are these
-- three steps on their own, with the descriptor that the first one answers; `create` makes a file that must not exist;
-- `store` writes a file through its descriptor, synchronises and closes it; `reread` opens a file and
-- says what reading it meets. `aborted` is the signal.
pub record Disk (S : Type 0) : Type 0 where
  pub lstat : Text → Acting CopyError S FileStat
  pub readdir : Text → Acting CopyError S (List Text)
  pub available : Text → Acting CopyError S ℕ
  pub sync_directory : Text → Acting CopyError S (Unit {0})
  pub open_directory : Text → Acting CopyError S ℕ
  pub sync : ℕ → Acting CopyError S (Unit {0})
  pub close : ℕ → Acting CopyError S (Unit {0})
  pub create : Text → Acting CopyError S (Unit {0})
  pub store : Text → Bytes → Acting CopyError S (Unit {0})
  pub reread : Text → Acting CopyError S Reread
  pub link : Text → Text → Acting CopyError S (Unit {0})
  pub aborted : Acting CopyError S Bool

abbrev pub in_directory : CopyPlan → Text → Text
in_directory plan name = plan.destination ++ b'/' ∷ name

abbrev pub partial_path : CopyPlan → Text
partial_path plan = in_directory plan (units "archive.sqlite.partial")

abbrev pub archive_path : CopyPlan → Text
archive_path plan = in_directory plan (units "archive.sqlite")

abbrev pub pending_path : CopyPlan → Text
pending_path plan = in_directory plan (units "copy-receipt.pending.json")

abbrev pub receipt_path : CopyPlan → Text
receipt_path plan = in_directory plan (units "copy-receipt.json")

-- `mode & 0o7777`, and the owner
abbrev pub is_private_directory : CopyPlan → FileStat → Bool
is_private_directory plan s =
    is_directory s
    && not (is_symbolic_link s)
    && s.uid == plan.uid
    && s.gid == plan.gid
    && s.mode % 4096 == 448

-- `Receipt`
unfoldable pub receipt : CopyPlan → ℕ → Value
receipt plan copied = obj (
    field (units "run") (str (units plan.run)) (
      field (units "passed") (bool true) (
        field (units "bytes") (int false copied) (
          field (units "sha256") (str plan.sha256) (
            field (units "sourceVerified") (bool true)
              (field (units "destinationVerified") (bool true) end))))))

module _ {S : Type 0} (disk : Disk S) where
  -- `requireCopy(!signal?.aborted, "TRANSFER_CANCELLED")`
  unfoldable pub check_signal : Acting CopyError S (Unit {0})
  check_signal = disk.aborted >>= λ aborted. pure (throw_if aborted (thrown "TRANSFER_CANCELLED"))

  -- the loop over the directory and its parent, and the creation of the partial file
  unfoldable pub settle : CopyPlan → Text → Acting CopyError S (Unit {0})
  settle plan parent =
      check_signal
      >> (disk.sync_directory plan.destination
          >> (check_signal >> (disk.sync_directory parent >> disk.create (partial_path plan))))

  unfoldable pub prepare : CopyPlan → Text → Acting CopyError S (Unit {0})
  prepare plan parent = disk.lstat plan.destination >>= λ directory.
      pure (throw_if (not (is_private_directory plan directory)) (thrown "DESTINATION_NOT_PRIVATE"))
      >> (disk.readdir plan.destination >>= λ entries.
          pure (throw_if (not (is_empty entries)) (thrown "DESTINATION_NOT_EMPTY"))
          >> (disk.available plan.destination >>= λ space.
              pure (
                throw_if (not (leb (plan.size + plan.reserve_bytes) space))
                  (thrown "DESTINATION_SPACE"))
              >> settle plan parent))

  -- both links, each followed by a synchronisation of the open directory
  unfoldable pub link_both : CopyPlan → ℕ → Acting CopyError S (Unit {0})
  link_both plan fd =
      check_signal
      >> (disk.link (partial_path plan) (archive_path plan)
          >> (disk.sync fd
              >> (check_signal
                  >> (disk.link (pending_path plan) (receipt_path plan) >> disk.sync fd))))

  -- the directory is opened for both links, and closed wherever they end
  unfoldable pub publish_links : CopyPlan → Acting CopyError S (Unit {0})
  publish_links plan =
      disk.open_directory plan.destination >>= λ fd. finally (link_both plan fd) (disk.close fd)

  unfoldable pub publish : CopyPlan → ℕ → Acting CopyError S (Unit {0})
  publish plan copied =
      check_signal
      >> (disk.create (pending_path plan)
          >> (disk.store (pending_path plan) (print (receipt plan copied) (0x0a ∷ []))
              >> publish_links plan))

  module _ (digest : Bytes → Bytes) (core : Plan) (verify : ℕ) where
    unfoldable pub verify_file : CopyPlan → Acting CopyError S (Unit {0})
    verify_file plan = disk.reread (partial_path plan) >>= λ file.
        pure (verify_destination core verify file digest)

    -- `core` are the fields of the plan that the transfer reads. The transfer writes the partial file
    -- as it goes; what it leaves there where it throws is not modelled. What is returned are the
    -- counts acknowledged and the frame of the receipt.
    unfoldable pub receive_file :
        CopyPlan → Text → Surroundings → Wire → Acting CopyError S (List Bytes × Bytes)
    receive_file plan parent around wire =
        prepare plan parent
        >> (pure (receive_stream digest core around wire) >>= λ received.
            disk.store (partial_path plan) received.content
            >> (verify_file plan
                >> (publish plan plan.size
                    >> (pure (frame 3 (print (receipt plan plan.size) [])) >>= λ reply.
                        pure (ok (received.acknowledged, reply))))))
