-- ===== src/Stream/Transfer.antt =====
-- A file that is sent in frames is received whole.
use memeloop_token_center_mi.Stream.Wire.{
  Copied, CopyError, thrown, Bytes, chunk, Wire, Frame, read_frame, frame, eof, is_empty,
}
use memeloop_token_center_mi.Common.{
  ℕ, zero, suc, ◌+◌, ◌≤◌, ◌<◌, ◌≡◌, refl, sym, ap, ◌∙◌, Bool, true, false, not, ◌&&◌, List, [], ◌∷◌,
  ◌++◌, ◌>>◌, length, length-append, joined, ltb, le→leb, lt→ltb, ◌==◌, ok, throw_if, All, arith,
  text_eq_refl,
}
use mathlib.Core.List.{append_assoc, append-nil}
use memeloop_token_center_mi.Stream.Receiver.{
  Plan, Surroundings, Received, count_buffer, is_segmented, is_data, prepend, check_message,
  receive_data, check_seal, receive_stream,
}
use memeloop_token_center_mi.Stream.Framing.{content, AreFilled, read_frame-frame}

-- The bytes that the frames of data write, one for each piece read from the source file.
abbrev pub Sends : List Bytes → Bytes → Type 0
Sends [] s = s ≡ []
Sends (c ∷ cs) s =
    (written : Bytes) × (t : Bytes) × (frame 1 c ≡ ok written) × (s ≡ written ++ t) × Sends cs t

-- The count acknowledged behind each piece.
abbrev pub counts : ℕ → List Bytes → List Bytes
counts copied [] = []
counts copied (c ∷ cs) = count_buffer (copied + length c) ∷ counts (copied + length c) cs

-- A piece is not empty and fits in a chunk; in the segmented diagnostic it is a chunk.
abbrev pub IsPiece : Plan → Bytes → Type 0
IsPiece plan c =
    (0 < length c)
    × (length c ≤ chunk)
    × (length c ≤ plan.chunk_size)
    × ((is_segmented plan ≡ true) → length c ≡ chunk)

-- Nothing is aborted, and every write to the file writes something.
abbrev pub IsQuiet : Surroundings → Type 0
IsQuiet around =
    ((n : ℕ) → around.aborted n ≡ false)
    × ((n : ℕ) → around.short_write n ≡ false)
    × (around.cancelled ≡ false)

passes :
    {A : Type 0} (refused : Bool) (e : CopyError) (next : Copied A)
    → refused ≡ false
    → (throw_if refused e >> next) ≡ next
passes true e next h = cc
passes false e next h = refl

data_accepted :
    (plan : Plan) (copied : ℕ) (c : Bytes)
    → IsPiece plan c
    → copied + length c ≤ plan.size
    → is_data plan copied (record { kind = 1; body = c }) ≡ true
data_accepted plan copied c (some', _, fits, _) h =
    rw
      (
        lt→ltb 0 (length c) some',
        le→leb (length c) plan.chunk_size fits,
        le→leb (copied + length c) plan.size h,
      )
      refl

segment_fits :
    (segmented : Bool) (n : ℕ)
    → (segmented ≡ true → n ≡ chunk)
    → (segmented && not (n == chunk)) ≡ false
segment_fits true n h = ground (arith, h refl)
segment_fits false n h = refl

message_accepted :
    (plan : Plan) (around : Surroundings) (copied : ℕ) (c : Bytes)
    → IsQuiet around
    → IsPiece plan c
    → copied + length c ≤ plan.size
    → check_message plan around copied (record { kind = 1; body = c }) ≡ ok tt
unfolding check_message
message_accepted plan around copied c quiet piece h =
    rw
      (
        check_message,
        quiet.0 copied,
        data_accepted plan copied c piece h,
        segment_fits (is_segmented plan) (length c) piece.3,
        quiet.1 copied,
      )
      refl

received_step :
    (fuel copied : ℕ) (plan : Plan) (around : Surroundings) (w v : Wire) (m : Frame) (r : Received)
    → copied < plan.size
    → read_frame w ≡ ok (m, v)
    → check_message plan around copied m ≡ ok tt
    → receive_data fuel plan around (copied + length m.body) v ≡ ok r
    → receive_data (suc fuel) plan around copied w
      ≡ ok (prepend m.body (count_buffer (copied + length m.body)) r)
unfolding receive_data
received_step fuel copied plan around w v m r h read good rest =
    rw (receive_data, lt→ltb copied plan.size h, read, good, rest) refl

not_less : (a b : ℕ) → a ≡ b → ltb a b ≡ false
not_less a b h = ground (arith, h)

-- The loop receives the pieces that the frames hold, and acknowledges each.
receive_data-Sends :
    (fuel copied : ℕ) (plan : Plan) (around : Surroundings) (cs : List Bytes) (s rest : Bytes)
    (w : Wire)
    → IsQuiet around
    → All (IsPiece plan) cs
    → copied + length (joined cs) ≡ plan.size
    → length (joined cs) < fuel
    → Sends cs s
    → AreFilled w.parts
    → content w ≡ s ++ rest
    → (v : Wire) × (receive_data fuel plan around copied w
        ≡ ok (record { content = joined cs; acknowledged = counts copied cs; wire = v }))
      × (content v ≡ rest)
      × AreFilled v.parts
unfolding receive_data
receive_data-Sends zero copied plan around cs s rest w quiet pieces total h sends f e =
    absurd (omega (arith, h))
receive_data-Sends (suc fuel) copied plan around [] s rest w quiet pieces total h sends f e = (
  w,
  rw (receive_data, not_less copied plan.size (omega (arith, total))) refl,
  e ∙ ap (λ x. x ++ rest) sends,
  f,
)
receive_data-Sends (suc fuel) copied plan around (c ∷ cs) s rest w quiet (piece, pieces) total h
      (written, t, is, split', sends) f e =
    let (v, read, left, g) =
      read_frame-frame 1 c written (t ++ rest) w (omega arith) piece.1 is f
        (e ∙ ap (λ x. x ++ rest) split' ∙ append_assoc written t rest) in
    let (u, received, others, k) =
      receive_data-Sends fuel (copied + length c) plan around cs t rest v quiet pieces
        (omega (arith, total, length-append c (joined cs)))
        (omega (arith, h, piece.0, length-append c (joined cs))) sends g left in
    (
      u,
      received_step fuel copied plan around w v _ _
          (omega (arith, total, piece.0, length-append c (joined cs))) read
          (message_accepted plan around copied c quiet piece
            (omega (arith, total, length-append c (joined cs))))
          received,
      others,
      k,
    )

ended :
    (pending : Bytes) (parts : List Bytes)
    → pending ++ joined parts ≡ []
    → AreFilled parts
    → throw_if (not (is_empty pending && is_empty parts)) (thrown "EXTRA_BYTES") ≡ ok tt
ended [] [] e f = refl
ended [] ([] ∷ parts) e f = absurd (omega (arith, f.0))
ended [] ((b ∷ part) ∷ parts) e f = cc
ended (b ∷ pending) parts e f = cc

seal_fits : (n : ℕ) (sha : Bytes) → length sha ≡ 32 → length (count_buffer n ++ sha) ≤ chunk
unfolding count_buffer
seal_fits n sha h = omega (arith, h)

eof-empty : (w : Wire) → content w ≡ [] → AreFilled w.parts → eof w ≡ ok tt
unfolding eof
eof-empty w e f = ended w.pending w.parts e f

module _ (digest : Bytes → Bytes) where
  sealed :
      (plan : Plan) (around : Surroundings) (r : Received) (w : Wire)
      → IsQuiet around
      → read_frame r.wire
        ≡ ok (record { kind = 2; body = count_buffer plan.size ++ plan.sha256 }, w)
      → eof w ≡ ok tt
      → digest r.content ≡ plan.sha256
      → check_seal digest plan around r
        ≡ ok (record { content = r.content; acknowledged = r.acknowledged; wire = w })
  unfolding check_seal
  sealed plan around r w quiet read ended same =
      rw
        (
          check_seal,
          read,
          text_eq_refl (count_buffer plan.size ++ plan.sha256),
          ended,
          same,
          text_eq_refl plan.sha256,
          quiet.0 plan.size,
        )
        refl

  pub receive_stream-Sends :
      (plan : Plan) (around : Surroundings) (cs : List Bytes) (frames seal : Bytes) (w : Wire)
      → IsQuiet around
      → All (IsPiece plan) cs
      → length (joined cs) ≡ plan.size
      → digest (joined cs) ≡ plan.sha256
      → length plan.sha256 ≡ 32
      → Sends cs frames
      → frame 2 (count_buffer plan.size ++ plan.sha256) ≡ ok seal
      → AreFilled w.parts
      → content w ≡ frames ++ seal
      → (v : Wire) × (receive_stream digest plan around w
          ≡ ok (record { content = joined cs; acknowledged = counts 0 cs; wire = v }))
  unfolding receive_stream
  receive_stream-Sends plan around cs frames seal w quiet pieces total same long sends is f e =
      let (v, received, left, g) =
        receive_data-Sends (suc plan.size) 0 plan around cs frames seal w quiet pieces
          (omega (arith, total)) (omega (arith, total)) sends f e in
      let (u, read, rest, k) =
        read_frame-frame 2 (count_buffer plan.size ++ plan.sha256) seal [] v (omega arith)
          (seal_fits plan.size plan.sha256 long) is g (left ∙ sym (append-nil seal)) in
      (
        u,
        passes around.cancelled _ _ quiet.2
            ∙ rw received (sealed plan around _ u quiet read (eof-empty u rest k) same),
      )
