-- ===== src/Stream/Sent.antt =====
-- What the sender wrote when it sent a file: the frames of pieces that make up the file, and a seal.
use memeloop_token_center_mi.Common.{
  ℕ, zero, suc, ◌+◌, ◌-◌, ◌/◌, ◌≤◌, ◌<◌, min, ◌≡◌, refl, ◌∙◌, inl, inr, Bool, true, false, not,
  ◌&&◌, ◌++◌, length, length-append, joined, All, ltb, ◌==◌, if_true, if_false, ltb→lt, ok,
  throw_if, throw_if-eq-ok, throw_unless-eq-ok, >>=-eq-ok, ok_inj, Bool-cases, arith, text_eq,
  text_eq_sound, units, Text,
}
use mathlib.Core.Path.{subst}
use memeloop_token_center_mi.Stream.Wire.{Bytes, chunk, Wire, frame, take}
use memeloop_token_center_mi.Stream.Receiver.{
  Surroundings, receive_stream, Plan, is_segmented, count_buffer,
}
use memeloop_token_center_mi.Stream.Transfer.{Sends, IsPiece, IsQuiet, counts, receive_stream-Sends}
use memeloop_token_center_mi.Stream.Framing.{AreFilled, content}
use memeloop_token_center_mi.Stream.Sender.{
  Budgets, Source, Sent, check_budget, check_trace, check_piece, send_piece, check_ack, send_data,
  check_source, check_sent, send_stream, no_sidecars, unchanged,
}

-- A read returns no more bytes than were wanted.
abbrev pub HasShortReads : Source → Type 0
HasShortReads source = (offset want : ℕ) → length (source.read offset want) ≤ want

segment_holds :
    (segmented : Bool) (n : ℕ)
    → (segmented && not (n == chunk)) ≡ false
    → segmented ≡ true
    → n ≡ chunk
segment_holds true n h e = ground (arith, h)
segment_holds false n h e = cc

piece_checked :
    (plan : Plan) (piece : Bytes) {u : Unit {0}}
    → check_piece plan piece ≡ ok u
    → (0 < length piece) × ((is_segmented plan ≡ true) → length piece ≡ chunk)
unfolding check_piece
piece_checked plan piece h =
    let (_, some', h) = >>=-eq-ok (throw_if (length piece == 0) _) _ h in
    (
      ground (arith, throw_if-eq-ok _ _ some'),
      segment_holds (is_segmented plan) (length piece) (throw_if-eq-ok _ _ h),
    )

all_sent : (copied size : ℕ) → copied ≤ size → ltb copied size ≡ false → copied + 0 ≡ size
all_sent copied size h done = ground (arith, h, done)

-- What a round sent: the piece read there and its frame.
module _ (plan : Plan) (budgets : Budgets) (source : Source) (small : plan.chunk_size ≤ chunk)
    (short : HasShortReads source) where
  IsPiece-sent :
      (copied : ℕ) (piece written : Bytes)
      → copied < plan.size
      → send_piece plan budgets source copied ≡ ok (piece, written)
      → IsPiece plan piece × (copied + length piece ≤ plan.size) × (frame 1 piece ≡ ok written)
  unfolding send_piece
  IsPiece-sent copied piece written h e =
      let (_, _, e) =
        >>=-eq-ok (check_budget budgets plan.size (source.elapsed copied) copied) _ e in
      let (_, _, e) = >>=-eq-ok (check_trace plan (copied / plan.chunk_size + 1)) _ e in
      let (_, good, e) =
        >>=-eq-ok (check_piece plan (source.read copied (min plan.chunk_size (plan.size - copied))))
          _ e in
      let (bytes, is, e) =
        >>=-eq-ok (frame 1 (source.read copied (min plan.chunk_size (plan.size - copied)))) _ e in
      let (some', whole) = piece_checked plan _ good in
      let fits = short copied (min plan.chunk_size (plan.size - copied)) in
      subst
        (λ (p : Bytes × Bytes).
          IsPiece plan p.0 × (copied + length p.0 ≤ plan.size) × (frame 1 p.0 ≡ ok p.1))
        (ok_inj e)
        (
          (some', omega (arith, fits, small), omega (arith, fits), whole),
          omega (arith, fits, h),
          is,
        )

  data_sent :
      (fuel copied : ℕ) (wire : Wire) (sent : Sent)
      → copied ≤ plan.size
      → send_data plan budgets source fuel copied wire ≡ ok sent
      → All (IsPiece plan) sent.pieces
        × (copied + length (joined sent.pieces) ≡ plan.size)
        × Sends sent.pieces sent.written
  unfolding send_data
  data_sent zero copied wire sent h e = cc
  data_sent (suc fuel) copied wire sent h e = elim (Bool-cases (ltb copied plan.size)) [
    | inl more ↦
        let ((piece, bytes), is, e) =
          >>=-eq-ok (send_piece plan budgets source copied) _
            (if_true (ltb copied plan.size) _ _ more e) in
        let (good, fits, framed) = IsPiece-sent copied piece bytes (ltb→lt _ _ more) is in
        let (w, _, e) =
          >>=-eq-ok (check_ack plan budgets source (copied + length piece) wire) _ e in
        let (s, rest, e) =
          >>=-eq-ok (send_data plan budgets source fuel (copied + length piece) w) _ e in
        let (others, total, sends) = data_sent fuel (copied + length piece) w s fits rest in
        subst
          (λ (x : Sent).
            All (IsPiece plan) x.pieces
            × (copied + length (joined x.pieces) ≡ plan.size)
            × Sends x.pieces x.written)
          (ok_inj e)
          (
            (good, others),
            omega (arith, total, length-append piece (joined s.pieces)),
            (bytes, s.written, framed, refl, sends),
          )
    | inr done ↦
        let is = ok_inj (if_false (ltb copied plan.size) _ _ done e) in
        subst
          (λ (x : Sent).
            All (IsPiece plan) x.pieces
            × (copied + length (joined x.pieces) ≡ plan.size)
            × Sends x.pieces x.written)
          is (tt, all_sent copied plan.size h done, refl)
  ]

module _ (digest : Bytes → Bytes) (hex : Bytes → Text) (plan : Plan) (budgets : Budgets)
    (source : Source) (small : plan.chunk_size ≤ chunk) (short : HasShortReads source) where
  sent_hash :
      (s : Sent) {u : Unit {0}}
      → check_sent digest hex plan source s ≡ ok u
      → digest (joined s.pieces) ≡ plan.sha256
  unfolding check_sent
  sent_hash s e =
      let (_, _, e) = >>=-eq-ok (no_sidecars source.sidecars_after) _ e in
      let (_, _, e) =
        >>=-eq-ok
          (throw_if
            (not (
              unchanged source.before source.after_open
              && unchanged source.before source.after_path))
            _)
          _ e in
      text_eq_sound (digest (joined s.pieces)) plan.sha256 (throw_unless-eq-ok _ _ e)

  -- What a sender that came to the seal has read and written.
  pub stream_sent :
      (wire : Wire) (sent : Sent)
      → send_stream digest hex plan budgets source wire ≡ ok sent
      → (frames : Bytes) × (seal : Bytes) × All (IsPiece plan) sent.pieces
        × (length (joined sent.pieces) ≡ plan.size)
        × (digest (joined sent.pieces) ≡ plan.sha256)
        × Sends sent.pieces frames
        × (frame 2 (count_buffer plan.size ++ plan.sha256) ≡ ok seal)
        × (sent.written ≡ frames ++ seal)
  unfolding send_stream
  stream_sent wire sent e =
      let (ready, _, e) = >>=-eq-ok (take 8 wire) _ e in
      let (_, _, e) = >>=-eq-ok (throw_if (not (text_eq ready.0 (units "CPA00001"))) _) _ e in
      let (_, _, e) = >>=-eq-ok (check_source digest hex plan source) _ e in
      let (s, is, e) = >>=-eq-ok (send_data plan budgets source (suc plan.size) 0 ready.1) _ e in
      let (_, checked, e) = >>=-eq-ok (check_sent digest hex plan source s) _ e in
      let (seal, sealed, e) = >>=-eq-ok (frame 2 (count_buffer plan.size ++ plan.sha256)) _ e in
      let (pieces, total, sends) =
        data_sent plan budgets source small short (suc plan.size) 0 ready.1 s (omega arith) is in
      subst
        (λ (x : Sent).
          (frames : Bytes) × (seal : Bytes) × All (IsPiece plan) x.pieces
          × (length (joined x.pieces) ≡ plan.size)
          × (digest (joined x.pieces) ≡ plan.sha256)
          × Sends x.pieces frames
          × (frame 2 (count_buffer plan.size ++ plan.sha256) ≡ ok seal)
          × (x.written ≡ frames ++ seal))
        (ok_inj e)
        (s.written, seal, pieces, omega (arith, total), sent_hash s checked, sends, sealed, refl)

  -- Where the sender comes to its seal, with reads that return no more than was wanted, chunks within the
  -- limit and a digest of 32 bytes, a receiver of the same plan that nothing aborts or keeps from writing
  -- returns from the bytes that the sender wrote, however the socket splits them into parts that are
  -- not empty: the file it has then is the pieces that the sender read, with the planned size and
  -- digest, and it has acknowledged the count behind each piece.
  pub send_stream-receive_stream :
      (around : Surroundings) (wire w : Wire) (sent : Sent)
      → send_stream digest hex plan budgets source wire ≡ ok sent
      → length plan.sha256 ≡ 32
      → IsQuiet around
      → AreFilled w.parts
      → content w ≡ sent.written
      → (v : Wire) × (receive_stream digest plan around w
          ≡ ok (record {
            content = joined sent.pieces;
            acknowledged = counts 0 sent.pieces;
            wire = v;
          }))
        × (length (joined sent.pieces) ≡ plan.size)
        × (digest (joined sent.pieces) ≡ plan.sha256)
  send_stream-receive_stream around wire w sent e long quiet filled arrived =
      let (frames, seal, pieces, total, hash, sends, sealed, is) = stream_sent wire sent e in
      let (v, received) =
        receive_stream-Sends digest plan around sent.pieces frames seal w quiet pieces total hash
          long sends sealed filled (arrived ∙ is) in
      (v, received, total, hash)
