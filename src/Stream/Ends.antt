-- ===== src/Stream/Ends.antt =====
-- The fuel of the receiver always suffices.
use memeloop_token_center_mi.Common.{
  ◌==◌, ℕ, zero, suc, ◌+◌, ◌-◌, ◌≤◌, ◌<◌, ◌≡◌, refl, Bool, true, false, not, ◌&&◌, List, [], ◌∷◌,
  length, leb, ltb, ok, err, throw_if, ◌>>=◌, if◌then◌else◌, arith, String, text_eq,
}
use memeloop_token_center_mi.Stream.Wire.{
  Bytes, chunk, Wire, Frame, read_frame, eof, Copied, out_of_fuel, thrown, fill, take, put_before,
  size_of, is_empty,
}
use memeloop_token_center_mi.Stream.Receiver.{
  Plan, Surroundings, is_data, is_segmented, check_message, receive_data, is_seal, check_seal,
  receive_stream,
}
use memeloop_token_center_mi.Stream.Whole.{data_of_check, data_bounds}

-- The result is none of running out of fuel.
abbrev pub HasEnded : {A : Type 0} → Copied A → Type 0
HasEnded (ok a) = Unit
HasEnded (err (thrown e)) = Unit
HasEnded (err out_of_fuel) = ⊥

bind-HasEnded :
    {A B : Type 0} (m : Copied A) (f : A → Copied B)
    → HasEnded m
    → ((a : A) → m ≡ ok a → HasEnded (f a))
    → HasEnded (m >>= f)
bind-HasEnded (ok a) f h k = k a refl
bind-HasEnded (err (thrown e)) f h k = tt
bind-HasEnded (err out_of_fuel) f h k = h

throw_if-HasEnded : (b : Bool) (e : String) → HasEnded (throw_if b (thrown e))
throw_if-HasEnded true e = tt
throw_if-HasEnded false e = tt

choice-HasEnded :
    {A : Type 0} (b : Bool) (x y : Copied A)
    → HasEnded x
    → HasEnded y
    → HasEnded (if b then x else y)
choice-HasEnded true x y h k = h
choice-HasEnded false x y h k = k

put_before-HasEnded :
    (bs : Bytes) (m : Copied (Bytes × Wire)) → HasEnded m → HasEnded (put_before bs m)
put_before-HasEnded bs (ok (more, w)) h = tt
put_before-HasEnded bs (err (thrown e)) h = tt
put_before-HasEnded bs (err out_of_fuel) h = h

fill-HasEnded : (n : ℕ) (pending : Bytes) (parts : List Bytes) → HasEnded (fill n pending parts)
unfolding fill
fill-HasEnded n pending [] = choice-HasEnded (leb n (length pending)) _ _ tt tt
fill-HasEnded n pending (part ∷ parts) =
    choice-HasEnded (leb n (length pending)) _ _ tt
      (put_before-HasEnded pending _ (fill-HasEnded (n - length pending) part parts))

take-HasEnded : (n : ℕ) (w : Wire) → HasEnded (take n w)
unfolding take
take-HasEnded n w =
    choice-HasEnded (leb n (chunk + 2048)) _ _ (fill-HasEnded n w.pending w.parts) tt

read_frame-HasEnded : (w : Wire) → HasEnded (read_frame w)
unfolding read_frame
read_frame-HasEnded w = bind-HasEnded (take 5 w) _ (take-HasEnded 5 w) (λ header _.
    bind-HasEnded (throw_if (ltb chunk (size_of header.0)) _) _
      (throw_if-HasEnded (ltb chunk (size_of header.0)) _)
      (λ _ _.
        bind-HasEnded (take (size_of header.0) header.1) _
          (take-HasEnded (size_of header.0) header.1) (λ _ _. tt)))

check_message-HasEnded :
    (plan : Plan) (around : Surroundings) (copied : ℕ) (m : Frame)
    → HasEnded (check_message plan around copied m)
unfolding check_message
check_message-HasEnded plan around copied m =
    bind-HasEnded (throw_if (around.aborted copied) _) _
      (throw_if-HasEnded (around.aborted copied) _)
      (λ _ _.
        bind-HasEnded (throw_if (not (is_data plan copied m)) _) _
          (throw_if-HasEnded (not (is_data plan copied m)) _)
          (λ _ _.
            bind-HasEnded (throw_if (is_segmented plan && not (length m.body == chunk)) _) _
              (throw_if-HasEnded (is_segmented plan && not (length m.body == chunk)) _)
              (λ _ _. throw_if-HasEnded (around.short_write copied) _)))

receive_data-HasEnded :
    (fuel copied : ℕ) (plan : Plan) (around : Surroundings) (w : Wire)
    → plan.size < fuel + copied
    → copied ≤ plan.size
    → HasEnded (receive_data fuel plan around copied w)
unfolding receive_data
receive_data-HasEnded zero copied plan around w h k = absurd (omega (arith, h, k))
receive_data-HasEnded (suc fuel) copied plan around w h k =
    choice-HasEnded (ltb copied plan.size) _ _
      (bind-HasEnded (read_frame w) _ (read_frame-HasEnded w) (λ m _.
        bind-HasEnded (check_message plan around copied m.0) _
          (check_message-HasEnded plan around copied m.0)
          (λ _ good.
            let (some', fits) =
              data_bounds plan copied m.0 (data_of_check plan around copied m.0 good) in
            bind-HasEnded (receive_data fuel plan around (copied + length m.0.body) m.1) _
              (receive_data-HasEnded fuel (copied + length m.0.body) plan around m.1
                (omega (arith, h, some')) fits)
              (λ _ _. tt))))
      tt

module _ (digest : Bytes → Bytes) where
  -- The receiver never runs out of fuel: on every wire it returns, or throws one of the code's errors.
  pub receive_stream-HasEnded :
      (plan : Plan) (around : Surroundings) (w : Wire)
      → HasEnded (receive_stream digest plan around w)
  unfolding receive_stream check_seal eof
  receive_stream-HasEnded plan around w =
      bind-HasEnded (throw_if around.cancelled _) _ (throw_if-HasEnded around.cancelled _) (λ _ _.
        bind-HasEnded (receive_data (suc plan.size) plan around 0 w) _
          (receive_data-HasEnded (suc plan.size) 0 plan around w (omega arith) (omega arith))
          (λ t _. bind-HasEnded (read_frame t.wire) _ (read_frame-HasEnded t.wire) (λ seal _.
            bind-HasEnded (throw_if (not (is_seal digest plan seal.0)) _) _
              (throw_if-HasEnded (not (is_seal digest plan seal.0)) _)
              (λ _ _.
                bind-HasEnded (throw_if (not (is_empty seal.1.pending && is_empty seal.1.parts)) _)
                  _ (throw_if-HasEnded (not (is_empty seal.1.pending && is_empty seal.1.parts)) _)
                  (λ _ _.
                    bind-HasEnded (throw_if (not (text_eq (digest t.content) plan.sha256)) _) _
                      (throw_if-HasEnded (not (text_eq (digest t.content) plan.sha256)) _)
                      (λ _ _.
                        bind-HasEnded (throw_if (around.aborted plan.size) _) _
                          (throw_if-HasEnded (around.aborted plan.size) _) (λ _ _. tt)))))))
