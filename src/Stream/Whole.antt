-- ===== src/Stream/Whole.antt =====
-- What the receiver returns is whole, and its loop ends.
use memeloop_token_center_mi.Common.{
  if_true, if_false, ℕ, zero, suc, ◌+◌, ◌≤◌, ◌<◌, ◌≡◌, sym, ap, inl, inr, true, false, not, length,
  length-append, ltb, leb→le, ltb→lt, ok, throw_if, throw_if-eq-ok, >>=-eq-ok, ok_inj, arith,
  Bool-cases, text_eq, text_eq_sound,
}
use mathlib.Core.Path.{subst}
use memeloop_token_center_mi.Stream.Wire.{Bytes, Wire, Frame, read_frame, eof}
use memeloop_token_center_mi.Stream.Receiver.{
  Plan, Surroundings, Received, count_buffer, is_data, prepend, check_message, receive_data,
  is_seal, check_seal, receive_stream,
}

pub data_of_check :
    (plan : Plan) (around : Surroundings) (copied : ℕ) (m : Frame) {u : Unit {0}}
    → check_message plan around copied m ≡ ok u
    → is_data plan copied m ≡ true
unfolding check_message
data_of_check plan around copied m h = ground (arith, h)

pub data_bounds :
    (plan : Plan) (copied : ℕ) (m : Frame)
    → is_data plan copied m ≡ true
    → (0 < length m.body) × (copied + length m.body ≤ plan.size)
data_bounds plan copied m h = (ltb→lt _ _ (ground (arith, h)), leb→le _ _ (ground (arith, h)))

not_less : (a b : ℕ) → ltb a b ≡ false → b ≤ a
not_less a b h = ground (arith, h)

message_step :
    (fuel copied : ℕ) (plan : Plan) (around : Surroundings) (w : Wire) (r : Received)
    → ltb copied plan.size ≡ true
    → receive_data (suc fuel) plan around copied w ≡ ok r
    → (m : Frame) × (v : Wire) × (t : Received) × (check_message plan around copied m ≡ ok tt)
      × (receive_data fuel plan around (copied + length m.body) v ≡ ok t)
      × (r ≡ prepend m.body (count_buffer (copied + length m.body)) t)
unfolding receive_data
message_step fuel copied plan around w r h e =
    let ((m, v), _, e) = >>=-eq-ok (read_frame w) _ (if_true (ltb copied plan.size) _ _ h e) in
    let (_, good, e) = >>=-eq-ok (check_message plan around copied m) _ e in
    let (t, rest, e) = >>=-eq-ok (receive_data fuel plan around (copied + length m.body) v) _ e in
    (m, v, t, good, rest, sym (ok_inj e))

receive_data-length :
    (fuel copied : ℕ) (plan : Plan) (around : Surroundings) (w : Wire) (r : Received)
    → copied ≤ plan.size
    → receive_data fuel plan around copied w ≡ ok r
    → copied + length r.content ≡ plan.size
unfolding receive_data
receive_data-length zero copied plan around w r h e = cc
receive_data-length (suc fuel) copied plan around w r h e =
    elim (Bool-cases (ltb copied plan.size)) [
      | inl more ↦
          let (m, v, t, good, rest, is) = message_step fuel copied plan around w r more e in
          let (some', fits) = data_bounds plan copied m (data_of_check plan around copied m good) in
          let total = receive_data-length fuel (copied + length m.body) plan around v t fits rest in
          omega (
            arith,
            total,
            ap (λ (x : Received). length x.content) is,
            length-append m.body t.content,
          )
      | inr done ↦
          let is = ok_inj (if_false (ltb copied plan.size) _ _ done e) in
          omega
            (arith, h, not_less copied plan.size done, ap (λ (x : Received). length x.content) is)
    ]

whole_length :
    (plan : Plan) (around : Surroundings) (w : Wire) (r : Received)
    → receive_data (suc plan.size) plan around 0 w ≡ ok r
    → length r.content ≡ plan.size
whole_length plan around w r e =
    omega (arith, receive_data-length (suc plan.size) 0 plan around w r (omega arith) e)

module _ (digest : Bytes → Bytes) where
  -- A file that is returned has the planned size and the planned digest.
  pub receive_stream_whole :
      (plan : Plan) (around : Surroundings) (w : Wire) (r : Received)
      → receive_stream digest plan around w ≡ ok r
      → (length r.content ≡ plan.size) × (digest r.content ≡ plan.sha256)
  unfolding receive_stream check_seal
  receive_stream_whole plan around w r e =
      let (_, _, e) = >>=-eq-ok (throw_if around.cancelled _) _ e in
      let (t, received, e) = >>=-eq-ok (receive_data (suc plan.size) plan around 0 w) _ e in
      let (seal, _, e) = >>=-eq-ok (read_frame t.wire) _ e in
      let (_, _, e) = >>=-eq-ok (throw_if (not (is_seal digest plan seal.0)) _) _ e in
      let (_, _, e) = >>=-eq-ok (eof seal.1) _ e in
      let (_, same, e) =
        >>=-eq-ok (throw_if (not (text_eq (digest t.content) plan.sha256)) _) _ e in
      let (_, _, e) = >>=-eq-ok (throw_if (around.aborted plan.size) _) _ e in
      subst (λ (x : Received). (length x.content ≡ plan.size) × (digest x.content ≡ plan.sha256))
        (ok_inj e)
        (
          whole_length plan around w t received,
          text_eq_sound (digest t.content) plan.sha256 (ground (arith, throw_if-eq-ok _ _ same)),
        )
