-- ===== src/Stream/SendTests.antt =====
-- Runs of the sender, of the whole receiver, and of the observations.
use memeloop_token_center_mi.Common.{
  ℕ, zero, suc, ◌≤◌, ◌≡◌, refl, Bool, true, false, ◌||◌, List, [], ◌∷◌, units, text_eq, length,
  joined, drop, All, ok, arith, FileStat, regular, directory,
}
use memeloop_token_center_mi.Acts.{pure}
use memeloop_token_center_mi.Json.Print.{print, digits_of, body_text}
use memeloop_token_center_mi.Stream.Wire.{
  Bytes, Wire, first, fill, take, eof, read_frame, header, frame,
}
use memeloop_token_center_mi.Stream.Receiver.{
  Plan, Surroundings, count_buffer, check_message, receive_data, check_seal, receive_stream,
}
use memeloop_token_center_mi.Stream.Framing.{AreFilled}
use memeloop_token_center_mi.Stream.Transfer.{counts}
use memeloop_token_center_mi.Stream.Profiles.{CopyPlan, copy_plan}
use memeloop_token_center_mi.Stream.Sender.{
  Budgets, Source, Sent, absent, check_budget, no_sidecars, check_trace, check_piece, send_piece,
  check_ack, send_data, check_source, check_sent, send_stream,
}
use memeloop_token_center_mi.Stream.Sent.{HasShortReads, send_stream-receive_stream}
use memeloop_token_center_mi.Stream.Verify.{Reread, verify_piece, verify_data, verify_destination}
use memeloop_token_center_mi.Stream.Destination.{
  link_both, Disk, archive_path, receipt_path, receipt, check_signal, settle, prepare,
  publish_links, publish, verify_file, receive_file,
}
use memeloop_token_center_mi.Stream.Published.{IsDisk, IsPublished, receive_file-IsPublished}
use memeloop_token_center_mi.Stream.Observation.{
  Event, undefined, other, natural, confirm_bytes, confirm_segment, confirm_event, confirm_events,
  confirmed_segmented_bytes, segmented_bytes,
}
use memeloop_token_center_mi.Stream.Progress.{
  IsReport, IsLargest, reports, confirmed_segmented_bytes-IsLargest,
}

sending : Unit {0}
unfolding first fill take eof read_frame header frame count_buffer check_message receive_data
    check_seal receive_stream check_budget no_sidecars check_trace check_piece send_piece check_ack
    send_data check_source check_sent send_stream
sending = tt

abbrev repeat : ℕ → Bytes
repeat zero = []
repeat (suc n) = 171 ∷ repeat n

abbrev digest : Bytes → Bytes
digest bs = repeat 32

abbrev plan : Plan
plan = record { run = "cpa-stream-20261005a"; size = 5; chunk_size = 4; sha256 = repeat 32 }

abbrev budgets : Budgets
budgets = record { total = 100; verify = 10; sample = 50 }

abbrev file : FileStat
file = record {
  kind = regular;
  dev = 1;
  ino = 2;
  size = 5;
  mtime_ns = 3;
  ctime_ns = 4;
  mode = 33_024;
  uid = 10_001;
  gid = 10_001;
  nlink = 1;
}

abbrev data_bytes : Bytes
data_bytes = 1 ∷ 2 ∷ 3 ∷ 4 ∷ 5 ∷ []

abbrev source : Source
source = record {
  elapsed = λ n. 0;
  read = λ offset want. first want (drop offset data_bytes);
  sidecars_before = absent ∷ [];
  sidecars_after = absent ∷ [];
  before = file;
  after_open = file;
  after_path = file;
}

abbrev answers : Wire
answers = record {
  pending = units "CPA00001";
  parts = (0 ∷ 0 ∷ 0 ∷ 0 ∷ 0 ∷ 0 ∷ 0 ∷ 4 ∷ []) ∷ (0 ∷ 0 ∷ 0 ∷ 0 ∷ 0 ∷ 0 ∷ 0 ∷ 5 ∷ []) ∷ [];
}

abbrev frames : Bytes
frames =
    1
    ∷ 0
    ∷ 0
    ∷ 0
    ∷ 4
    ∷ 1
    ∷ 2
    ∷ 3
    ∷ 4
    ∷ 1
    ∷ 0
    ∷ 0
    ∷ 0
    ∷ 1
    ∷ 5
    ∷ 2
    ∷ 0
    ∷ 0
    ∷ 0
    ∷ 40
    ∷ 0
    ∷ 0
    ∷ 0
    ∷ 0
    ∷ 0
    ∷ 0
    ∷ 0
    ∷ 5
    ∷ repeat 32

abbrev sent : Sent
sent = record {
  written = frames;
  pieces = (1 ∷ 2 ∷ 3 ∷ 4 ∷ []) ∷ (5 ∷ []) ∷ [];
  wire = record { pending = []; parts = [] };
}

short_first : (n : ℕ) (bs : Bytes) → length (first n bs) ≤ n
unfolding first
short_first zero bs = omega arith
short_first (suc n) [] = omega arith
short_first (suc n) (b ∷ bs) = omega (arith, short_first n bs)

short_reads : HasShortReads source
short_reads offset want = short_first want (drop offset data_bytes)

sends : send_stream digest (λ bs. bs) plan budgets source answers ≡ ok sent
unfolding sending
sends = refl

abbrev quiet : Surroundings
quiet = record { cancelled = false; aborted = λ n. false; short_write = λ n. false }

abbrev arriving : Wire
arriving = record { pending = 1 ∷ 0 ∷ []; parts = drop 2 frames ∷ [] }

filled : AreFilled arriving.parts
filled = (omega arith, tt)

send_stream-receive_stream_example :
    (v : Wire) × (receive_stream digest plan quiet arriving
      ≡ ok (record { content = joined sent.pieces; acknowledged = counts 0 sent.pieces; wire = v }))
    × (length (joined sent.pieces) ≡ 5)
    × (digest (joined sent.pieces) ≡ repeat 32)
send_stream-receive_stream_example =
    send_stream-receive_stream digest (λ bs. bs) plan budgets source (omega arith) short_reads quiet
      answers arriving sent sends refl (λ n. refl, λ n. refl, refl) filled refl

-- A directory as two flags: whether the archive and the receipt are there.
abbrev private_directory : FileStat
private_directory = record file { kind = directory; mode = 16_832 }

abbrev reading : Reread
reading = record {
  aborted = λ n. false;
  elapsed = λ n. 0;
  read = λ offset want. first want (drop offset data_bytes);
  before = file;
  after_open = file;
  after_path = file;
}

abbrev small_plan : CopyPlan
small_plan = record copy_plan { size = 5; reserve_bytes = 0 }

abbrev disk : Disk (Bool × Bool)
disk = record {
  lstat = λ path. pure (ok private_directory);
  readdir = λ path. pure (ok []);
  available = λ path. pure (ok 1000);
  sync_directory = λ path. pure (ok tt);
  open_directory = λ path. pure (ok 3);
  sync = λ fd. pure (ok tt);
  close = λ fd. pure (ok tt);
  create = λ path. pure (ok tt);
  store = λ path bytes. pure (ok tt);
  reread = λ path. pure (ok reading);
  link = λ from to s. (
    ok tt,
    (text_eq to (archive_path small_plan) || s.0, text_eq to (receipt_path small_plan) || s.1),
  );
  aborted = pure (ok false);
}

disk-IsDisk : IsDisk (λ s. s.0) (λ s. s.1) disk small_plan (units "/destination")
disk-IsDisk = record {
  lstat = λ s. refl;
  readdir = λ s. refl;
  available = λ s. refl;
  sync_destination = λ s. refl;
  open_directory = λ s. refl;
  sync = λ fd s. refl;
  close = λ fd s. refl;
  sync_parent = λ s. refl;
  create_partial = λ s. refl;
  create_pending = λ s. refl;
  store_partial = λ bytes s. refl;
  store_pending = λ bytes s. refl;
  reread = λ s. refl;
  aborted = λ s. refl;
  link_archive = λ s. (refl, λ _. refl, λ _. refl);
  link_receipt = λ s. (refl, λ _. refl);
}

receive_file-IsPublished_example :
    IsPublished
      (λ s. s.0)
      (λ s. s.1)
      (receive_file disk digest plan 100 small_plan
        (units "/destination")
        quiet
        arriving
        (false, false))
receive_file-IsPublished_example =
    receive_file-IsPublished (λ s. s.0) (λ s. s.1) disk small_plan (units "/destination")
      disk-IsDisk digest plan 100 quiet arriving (false, false) (λ h. cc)

receiving : Unit {0}
unfolding sending receipt check_signal settle prepare link_both publish_links publish verify_file
    receive_file verify_piece verify_data verify_destination print digits_of body_text
receiving = tt

-- The run returns, and both names are there.
publishes :
    (receive_file disk digest plan 100 small_plan
      (units "/destination")
      quiet
      arriving
      (false, false)).1
    ≡ (true, true)
unfolding receiving
publishes = refl

abbrev events : List Event
events =
    record { confirmed_bytes = natural 7; is_ack_read = false; segment = undefined }
    ∷ record { confirmed_bytes = undefined; is_ack_read = true; segment = natural 2 }
    ∷ record { confirmed_bytes = natural 5; is_ack_read = false; segment = other }
    ∷ []

confirmed_segmented_bytes-IsLargest_example :
    (All IsReport events
      → (c : ℕ) × (confirmed_segmented_bytes events 3 ≡ ok c)
        × IsLargest 3 (reports events) c
        × (c ≤ segmented_bytes))
    × ((c : ℕ) → confirmed_segmented_bytes events 3 ≡ ok c → All IsReport events)
confirmed_segmented_bytes-IsLargest_example =
    confirmed_segmented_bytes-IsLargest events 3 (omega arith)

confirms : confirmed_segmented_bytes events 3 ≡ ok 8_388_608
unfolding confirm_bytes confirm_segment confirm_event confirm_events confirmed_segmented_bytes
confirms = refl
