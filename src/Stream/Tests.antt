-- ===== src/Stream/Tests.antt =====
-- Runs of the receiver.
use memeloop_token_center_mi.Common.{ℕ, ◌≡◌, refl, arith, false, List, [], ◌∷◌, length, ok, err}
use memeloop_token_center_mi.Stream.Wire.{
  Bytes, Wire, thrown, first, fill, take, eof, read_frame, header, frame,
}
use memeloop_token_center_mi.Stream.Receiver.{
  Plan, Surroundings, Received, count_buffer, check_message, receive_data, check_seal,
  receive_stream,
}
use memeloop_token_center_mi.Stream.Framing.{content, AreFilled, read_frame-frame}
use memeloop_token_center_mi.Stream.Transfer.{counts}
use memeloop_token_center_mi.Stream.Whole.{receive_stream_whole}
use memeloop_token_center_mi.Stream.Ends.{HasEnded, receive_stream-HasEnded}

stream : Unit {0}
unfolding first fill take eof read_frame header frame count_buffer check_message receive_data
    check_seal receive_stream
stream = tt

abbrev repeat : ℕ → Bytes
repeat Prim.Native.Nat.ℕ.zero = []
repeat (Prim.Native.Nat.ℕ.suc n) = 171 ∷ repeat n

abbrev digest : Bytes → Bytes
digest bs = repeat 32

abbrev plan : Plan
plan = record { run = "cpa-stream-20261005a"; size = 5; chunk_size = 4; sha256 = repeat 32 }

abbrev quiet : Surroundings
quiet = record { cancelled = false; aborted = λ n. false; short_write = λ n. false }

abbrev pieces : List Bytes
pieces = (1 ∷ 2 ∷ 3 ∷ []) ∷ (4 ∷ 5 ∷ []) ∷ []

-- the bytes of the frames, in parts that do not follow the frames
abbrev wire : Wire
wire = record {
  pending = [];
  parts =
      (1 ∷ 0 ∷ 0 ∷ [])
      ∷ (0 ∷ 3 ∷ 1 ∷ 2 ∷ 3 ∷ 1 ∷ 0 ∷ [])
      ∷ (0 ∷ 0 ∷ 2 ∷ 4 ∷ 5 ∷ 2 ∷ 0 ∷ 0 ∷ 0 ∷ 40 ∷ [])
      ∷ (0 ∷ 0 ∷ 0 ∷ 0 ∷ 0 ∷ 0 ∷ 0 ∷ 5 ∷ [])
      ∷ repeat 32
      ∷ [];
}

abbrev frames : Bytes
frames = 1 ∷ 0 ∷ 0 ∷ 0 ∷ 3 ∷ 1 ∷ 2 ∷ 3 ∷ 1 ∷ 0 ∷ 0 ∷ 0 ∷ 2 ∷ 4 ∷ 5 ∷ []

abbrev seal : Bytes
seal = 2 ∷ 0 ∷ 0 ∷ 0 ∷ 40 ∷ 0 ∷ 0 ∷ 0 ∷ 0 ∷ 0 ∷ 0 ∷ 0 ∷ 5 ∷ repeat 32

abbrev received : Received
received = record {
  content = 1 ∷ 2 ∷ 3 ∷ 4 ∷ 5 ∷ [];
  acknowledged = counts 0 pieces;
  wire = record { pending = []; parts = [] };
}

runs :
    (receive_stream digest plan quiet wire ≡ ok received)
    × (receive_stream digest plan quiet (record { pending = 1 ∷ 0 ∷ []; parts = [] })
        ≡ err (thrown "TRUNCATED_STREAM"))
    × (receive_stream digest plan quiet (record { pending = 1 ∷ 0 ∷ 0 ∷ 0 ∷ 0 ∷ []; parts = [] })
        ≡ err (thrown "DATA_FRAME"))
unfolding stream
runs = (refl, refl, refl)

filled : AreFilled wire.parts
filled = (omega arith, (omega arith, (omega arith, (omega arith, (omega arith, tt)))))

receive_stream_whole_example : (length received.content ≡ 5) × (digest received.content ≡ repeat 32)
receive_stream_whole_example = receive_stream_whole digest plan quiet wire received runs.0

receive_stream-HasEnded_example : HasEnded (receive_stream digest plan quiet wire)
receive_stream-HasEnded_example = receive_stream-HasEnded digest plan quiet wire

one_frame : frame 1 (1 ∷ 2 ∷ 3 ∷ []) ≡ ok (1 ∷ 0 ∷ 0 ∷ 0 ∷ 3 ∷ 1 ∷ 2 ∷ 3 ∷ [])
unfolding stream
one_frame = refl

read_frame-frame_example :
    (v : Wire) × (read_frame wire ≡ ok (record { kind = 1; body = 1 ∷ 2 ∷ 3 ∷ [] }, v))
    × (content v ≡ 1 ∷ 0 ∷ 0 ∷ 0 ∷ 2 ∷ 4 ∷ 5 ∷ seal)
    × AreFilled v.parts
read_frame-frame_example =
    read_frame-frame 1 (1 ∷ 2 ∷ 3 ∷ []) (1 ∷ 0 ∷ 0 ∷ 0 ∷ 3 ∷ 1 ∷ 2 ∷ 3 ∷ [])
      (1 ∷ 0 ∷ 0 ∷ 0 ∷ 2 ∷ 4 ∷ 5 ∷ seal) wire (omega arith) (omega arith) one_frame filled refl
