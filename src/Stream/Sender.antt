-- ===== src/Stream/Sender.antt =====
-- `checkBudget`, `noSidecars`, `unchanged`, `requireReadOnlyMount` and `sendFile` of ops/lib/cpa-stream.ts.
use memeloop_token_center_mi.Common.{
  joined, ℕ, zero, suc, ◌+◌, ◌-◌, ◌*◌, ◌/◌, min, Bool, false, not, ◌&&◌, Option, none, some, List,
  [], ◌∷◌, ◌++◌, Text, units, text_eq, contains, any, length, leb, ltb, ◌==◌, if◌then◌else◌, ok,
  err, throw_if, ◌>>=◌, ◌>>◌, String, FileStat, is_file, is_read_only,
}
use memeloop_token_center_mi.Json.Parser.{Value, null, bool, int, str, obj, Fields}
use memeloop_token_center_mi.Routes.Strings.{split, trim}
use memeloop_token_center_mi.Routes.Schema.{get}
use memeloop_token_center_mi.Stream.Wire.{
  Bytes, thrown, out_of_fuel, Copied, chunk, Wire, take, read_frame, frame, eof,
}
use memeloop_token_center_mi.Stream.Receiver.{Plan, count_buffer, is_segmented}

-- The budgets of a plan, in nanoseconds, the unit of the clock.
pub record Budgets : Type 0 where
  pub total : ℕ
  pub verify : ℕ
  pub sample : ℕ

unfoldable pub check_budget : Budgets → ℕ → ℕ → ℕ → Copied (Unit {0})
check_budget budgets size elapsed copied =
    throw_if (not (ltb (budgets.verify + elapsed) budgets.total)) (thrown "COPY_DEADLINE")
    >> throw_if
        (leb budgets.sample elapsed
          && not (
              ltb 0 copied
              && ltb ((size - copied) * elapsed)
                  ((budgets.total - budgets.verify - elapsed) * copied)))
        (thrown "THROUGHPUT_INSUFFICIENT")

abbrev pub unchanged : FileStat → FileStat → Bool
unchanged before after =
    before.dev == after.dev
    && before.ino == after.ino
    && before.size == after.size
    && before.mtime_ns == after.mtime_ns
    && before.ctime_ns == after.ctime_ns
    && before.mode == after.mode

-- what `lstat` of a sidecar does: it throws ENOENT, or another error, or returns
pub data Sidecar : Type 0 where
  absent present : Sidecar
  failing : (code : String) → Sidecar

unfoldable pub no_sidecars : List Sidecar → Copied (Unit {0})
no_sidecars [] = ok tt
no_sidecars (absent ∷ rest) = no_sidecars rest
no_sidecars (present ∷ rest) = err (thrown "SOURCE_SIDECAR")
no_sidecars (failing code ∷ rest) = err (thrown code)

-- the fields with these places, of a line of the mounts
abbrev is_source_mount : List Text → Bool
is_source_mount (a ∷ b ∷ c ∷ d ∷ target ∷ options ∷ rest) =
    text_eq target (units "/source") && contains (units "ro") (split b',' options)
is_source_mount _ = false

unfoldable pub require_read_only_mount : Text → Copied (Unit {0})
require_read_only_mount mounts =
    throw_if (not (any (λ line. is_source_mount (split b' ' line)) (split 0x0a (trim mounts))))
      (thrown "SOURCE_NOT_READ_ONLY")

-- What the sender meets: the time since its start at the round that begins behind so many bytes, what a
-- read there returns of so many bytes wanted, the sidecars and the stats before and after.
pub record Source : Type 0 where
  pub elapsed : ℕ → ℕ
  pub read : ℕ → ℕ → Bytes
  pub sidecars_before : List Sidecar
  pub sidecars_after : List Sidecar
  pub before : FileStat
  pub after_open : FileStat
  pub after_path : FileStat

-- what was written to the socket, the pieces read, and the wire after that
pub record Sent : Type 0 where
  pub written : Bytes
  pub pieces : List Bytes
  pub wire : Wire

abbrev pub put_piece : Bytes → Bytes → Sent → Sent
put_piece bytes piece s = record {
  written = bytes ++ s.written;
  pieces = piece ∷ s.pieces;
  wire = s.wire;
}

-- `segmentTrace`, whose checks are all that it does to the transfer
unfoldable pub check_trace : Plan → ℕ → Copied (Unit {0})
check_trace plan segment =
    throw_if
      (is_segmented plan
        && not (plan.size == 4 * chunk && plan.chunk_size == chunk && leb segment 4))
      (thrown "TRACE_SCOPE")

-- what is tested of the piece that was read
unfoldable pub check_piece : Plan → Bytes → Copied (Unit {0})
check_piece plan piece =
    throw_if (length piece == 0) (thrown "SOURCE_TRUNCATED")
    >> throw_if (is_segmented plan && not (length piece == chunk)) (thrown "SYNTHETIC_SEGMENT_SIZE")

module _ (plan : Plan) (budgets : Budgets) (source : Source) where
  -- one round before the acknowledgement: the piece read, and the bytes of its frame
  unfoldable pub send_piece : ℕ → Copied (Bytes × Bytes)
  send_piece copied = do
    check_budget budgets plan.size (source.elapsed copied) copied
    check_trace plan (copied / plan.chunk_size + 1)
    let piece : Bytes = source.read copied (min plan.chunk_size (plan.size - copied))
    check_piece plan piece
    bytes ← frame 1 piece
    ok (piece, bytes)

  unfoldable pub check_ack : ℕ → Wire → Copied Wire
  check_ack copied wire = do
    ack ← take 8 wire
    throw_if (not (text_eq ack.0 (count_buffer copied))) (thrown "ACK_MISMATCH")
    ok ack.1

  -- `while (copied < plan.size)`, on fuel
  unfoldable pub send_data : ℕ → ℕ → Wire → Copied Sent
  send_data zero copied wire = err out_of_fuel
  send_data (suc fuel) copied wire =
      let more = send_piece copied >>= λ p. check_ack (copied + length p.0) wire >>= λ w.
      send_data fuel (copied + length p.0) w >>= λ s. ok (put_piece p.1 p.0 s) in
      if ltb copied plan.size then more else ok (record { written = []; pieces = []; wire = wire })

-- the fields of a receipt that has them
abbrev is_str : Text → Option Value → Bool
is_str t (some (str s)) = text_eq s t
is_str t _ = false

abbrev is_int : ℕ → Option Value → Bool
is_int n (some (int false m)) = m == n
is_int n _ = false

abbrev is_yes : Option Value → Bool
is_yes (some (bool b)) = b
is_yes _ = false

module _ (digest : Bytes → Bytes) (hex : Bytes → Text) where
  unfoldable pub is_receipt : Plan → Fields → Bool
  is_receipt plan receipt =
      is_str (units plan.run) (get (units "run") receipt)
      && is_yes (get (units "passed") receipt)
      && is_int plan.size (get (units "bytes") receipt)
      && is_str (hex plan.sha256) (get (units "sha256") receipt)
      && is_yes (get (units "sourceVerified") receipt)
      && is_yes (get (units "destinationVerified") receipt)

  -- A property of `null` is a type error; any other value has no such fields, or is an object.
  unfoldable pub check_receipt : Plan → Value → Copied (Unit {0})
  check_receipt plan null = err (thrown "TypeError")
  check_receipt plan (obj fields) =
      throw_if (not (is_receipt plan fields)) (thrown "RECEIPT_MISMATCH")
  check_receipt plan _ = err (thrown "RECEIPT_MISMATCH")

  -- the checks of the source before and behind the loop
  unfoldable pub check_source : Plan → Source → Copied (Unit {0})
  check_source plan source = do
    no_sidecars source.sidecars_before
    throw_if
        (not
          (is_file source.before && source.before.size == plan.size && is_read_only source.before))
        (thrown "SOURCE_METADATA")

  unfoldable pub check_sent : Plan → Source → Sent → Copied (Unit {0})
  check_sent plan source sent = do
    no_sidecars source.sidecars_after
    throw_if
        (not
          (unchanged source.before source.after_open && unchanged source.before source.after_path))
        (thrown "SOURCE_CHANGED")
    throw_if (not (text_eq (digest (joined sent.pieces)) plan.sha256))
        (thrown "SOURCE_HASH_MISMATCH")

  -- everything up to the seal: what was written to the socket is the frames and the seal
  unfoldable pub send_stream : Plan → Budgets → Source → Wire → Copied Sent
  send_stream plan budgets source wire = do
    ready ← take 8 wire
    throw_if (not (text_eq ready.0 (units "CPA00001"))) (thrown "PROTOCOL_READY")
    check_source plan source
    sent ← send_data plan budgets source (suc plan.size) 0 ready.1
    check_sent plan source sent
    seal ← frame 2 (count_buffer plan.size ++ plan.sha256)
    ok (record { written = sent.written ++ seal; pieces = sent.pieces; wire = sent.wire })

  -- `JSON.parse` of the reply is `parse`, none where it throws; an integral number is an `int`.
  unfoldable pub send_file : (Bytes → Option Value) → Plan → Budgets → Source → Wire → Copied Sent
  send_file parse plan budgets source wire = do
    sent ← send_stream plan budgets source wire
    check_trace plan 0
    reply ← read_frame sent.wire
    throw_if (not (reply.0.kind == 3 && leb (length reply.0.body) 2048)) (thrown "RECEIPT_FRAME")
    elim (parse reply.0.body) [
      | none ↦ err (thrown "SyntaxError")
      | some value ↦ check_receipt plan value
    ]
    eof reply.1
    ok sent
