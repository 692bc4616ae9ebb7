-- ===== src/Stream/Receiver.antt =====
-- `receiveFile` from the ready message to the seal: the loop over the data frames and what follows it.
use memeloop_token_center_mi.Common.{
  ℕ, zero, suc, ◌+◌, ◌/◌, ◌%◌, ◌^◌, Bool, not, ◌&&◌, List, [], ◌∷◌, ◌++◌, length, leb, ltb, ◌==◌,
  ok, err, throw_if, ◌>>=◌, ◌>>◌, String, str_eq, text_eq, if◌then◌else◌,
}
use memeloop_token_center_mi.Stream.Wire.{
  Bytes, thrown, out_of_fuel, Copied, chunk, Wire, Frame, read_frame, eof,
}

-- the fields of `CopyPlan` that the receiving reads; the digest is its bytes
pub record Plan : Type 0 where
  pub run : String
  pub size : ℕ
  pub chunk_size : ℕ
  pub sha256 : Bytes

-- What the process meets: whether the signal is aborted before the ready message, and, at the message
-- that begins behind so many bytes, whether it is aborted by then, and whether a write to the file
-- writes nothing. A write to the file or to the socket that throws is not modelled.
pub record Surroundings : Type 0 where
  pub cancelled : Bool
  pub aborted : ℕ → Bool
  pub short_write : ℕ → Bool

-- what was written to the file, the counts acknowledged, and the wire after that
pub record Received : Type 0 where
  pub content : Bytes
  pub acknowledged : List Bytes
  pub wire : Wire

-- `countBuffer`
unfoldable pub count_buffer : ℕ → Bytes
count_buffer count =
    count / 2 ^ 56 % 256
    ∷ count / 2 ^ 48 % 256
    ∷ count / 2 ^ 40 % 256
    ∷ count / 2 ^ 32 % 256
    ∷ count / 2 ^ 24 % 256
    ∷ count / 2 ^ 16 % 256
    ∷ count / 2 ^ 8 % 256
    ∷ count % 256
    ∷ []

abbrev pub is_segmented : Plan → Bool
is_segmented plan = str_eq plan.run "cpa-stream-segmented-20261011a"

abbrev pub is_data : Plan → ℕ → Frame → Bool
is_data plan copied message =
    message.kind == 1
    && ltb 0 (length message.body)
    && leb (length message.body) plan.chunk_size
    && leb (copied + length message.body) plan.size

abbrev pub prepend : Bytes → Bytes → Received → Received
prepend body ack r = record {
  content = body ++ r.content;
  acknowledged = ack ∷ r.acknowledged;
  wire = r.wire;
}

-- what is tested of a message
unfoldable pub check_message : Plan → Surroundings → ℕ → Frame → Copied (Unit {0})
check_message plan around copied message =
    throw_if (around.aborted copied) (thrown "TRANSFER_CANCELLED")
    >> (throw_if (not (is_data plan copied message)) (thrown "DATA_FRAME")
        >> (throw_if (is_segmented plan && not (length message.body == chunk))
              (thrown "SYNTHETIC_SEGMENT_SIZE")
            >> throw_if (around.short_write copied) (thrown "SHORT_WRITE")))

-- `while (copied < plan.size)`, on fuel
unfoldable pub receive_data : ℕ → Plan → Surroundings → ℕ → Wire → Copied Received
receive_data zero plan around copied wire = err out_of_fuel
receive_data (suc fuel) plan around copied wire =
    let more = read_frame wire >>= λ m.
    check_message plan around copied m.0
    >> (receive_data fuel plan around (copied + length m.0.body) m.1 >>= λ r.
        ok (prepend m.0.body (count_buffer (copied + length m.0.body)) r)) in
    if ltb copied plan.size
    then more
    else ok (record { content = []; acknowledged = []; wire = wire })

module _ (digest : Bytes → Bytes) where
  abbrev pub is_seal : Plan → Frame → Bool
  is_seal plan seal = seal.kind == 2 && text_eq seal.body (count_buffer plan.size ++ plan.sha256)

  -- what follows the loop, up to the synchronisation of the file
  unfoldable pub check_seal : Plan → Surroundings → Received → Copied Received
  check_seal plan around r = read_frame r.wire >>= λ seal.
      throw_if (not (is_seal plan seal.0)) (thrown "SOURCE_SEAL")
      >> (eof seal.1
          >> (throw_if (not (text_eq (digest r.content) plan.sha256))
                (thrown "STREAM_HASH_MISMATCH")
              >> (throw_if (around.aborted plan.size) (thrown "TRANSFER_CANCELLED")
                  >> ok (record {
                    content = r.content;
                    acknowledged = r.acknowledged;
                    wire = seal.1;
                  }))))

  -- The fuel is one round more than the bytes: every message holds one byte at least.
  unfoldable pub receive_stream : Plan → Surroundings → Wire → Copied Received
  receive_stream plan around wire =
      throw_if around.cancelled (thrown "TRANSFER_CANCELLED")
      >> (receive_data (suc plan.size) plan around 0 wire >>= check_seal plan around)
