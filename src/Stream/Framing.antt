-- ===== src/Stream/Framing.antt =====
-- Frames are read as they were written, however the socket splits the bytes.
use memeloop_token_center_mi.Common.{
  joined, ℕ, ◌+◌, ◌-◌, ◌^◌, ◌≤◌, ◌<◌, ◌≡◌, refl, sym, ap, ◌∙◌, inl, inr, false, List, [], ◌∷◌, ◌++◌,
  length, length-append, drop, leb, ltb, le→leb, leb→le, ok, All, arith, Bool-cases,
}
use mathlib.Core.List.{append_assoc}
use memeloop_token_center_mi.Stream.Wire.{
  Bytes, chunk, Wire, first, fill, take, read_frame, header, frame, size_of, kind_of,
}

abbrev pub content : Wire → Bytes
content wire = wire.pending ++ joined wire.parts

-- A socket never yields an empty part.
abbrev pub AreFilled : List Bytes → Type 0
AreFilled parts = All (λ part. 0 < length part) parts

heads : {b c : ℕ} {x y : Bytes} → ◌≡◌ {A = Bytes} (c ∷ x) (b ∷ y) → c ≡ b
heads e = cc

tails : {b c : ℕ} {x y : Bytes} → ◌≡◌ {A = Bytes} (c ∷ x) (b ∷ y) → x ≡ y
tails e = cc

first_part :
    (bs pending more rest : Bytes)
    → pending ++ more ≡ bs ++ rest
    → length bs ≤ length pending
    → (first (length bs) pending ≡ bs) × (drop (length bs) pending ++ more ≡ rest)
unfolding first
first_part [] pending more rest e h = (refl, e)
first_part (b ∷ bs) [] more rest e h = absurd (omega (arith, h))
first_part (b ∷ bs) (c ∷ pending) more rest e h =
    let (same, dropped) = first_part bs pending more rest (tails e) (omega (arith, h)) in
    (ap (λ x. c ∷ x) same ∙ ap (λ x. x ∷ bs) (heads e), dropped)

later_part :
    (bs pending more rest : Bytes)
    → pending ++ more ≡ bs ++ rest
    → length pending < length bs
    → (tail : Bytes) × (bs ≡ pending ++ tail) × (more ≡ tail ++ rest)
later_part bs [] more rest e h = (bs, refl, e)
later_part [] (c ∷ pending) more rest e h = absurd (omega (arith, h))
later_part (b ∷ bs) (c ∷ pending) more rest e h =
    let (tail, same, others) = later_part bs pending more rest (tails e) (omega (arith, h)) in
    (tail, ap (λ x. b ∷ x) same ∙ ap (λ x. x ∷ pending ++ tail) (sym (heads e)), others)

fill_step :
    (n m : ℕ) (pending part : Bytes) (parts : List Bytes) (tail : Bytes) (w : Wire)
    → leb n (length pending) ≡ false
    → n - length pending ≡ m
    → fill m part parts ≡ ok (tail, w)
    → fill n pending (part ∷ parts) ≡ ok (pending ++ tail, w)
unfolding fill
fill_step n m pending part parts tail w short rest h = rw (fill, short, rest, h) refl

lt_of_leb : (a b : ℕ) → leb a b ≡ false → b < a
lt_of_leb a b h = ground arith

fill-content :
    (bs rest pending : Bytes) (parts : List Bytes)
    → AreFilled parts
    → pending ++ joined parts ≡ bs ++ rest
    → (w : Wire) × (fill (length bs) pending parts ≡ ok (bs, w))
      × (content w ≡ rest)
      × AreFilled w.parts
unfolding fill
fill-content bs rest pending [] f e = elim (Bool-cases (leb (length bs) (length pending))) [
  | inl enough ↦
      let (got, left) = first_part bs pending [] rest e (leb→le _ _ enough) in
      (
        record { pending = drop (length bs) pending; parts = [] },
        rw (fill, enough, got) refl,
        left,
        tt,
      )
  | inr short ↦ absurd (
      omega (
        arith,
        ap length e,
        length-append pending [],
        length-append bs rest,
        lt_of_leb (length bs) (length pending) short,
      ))
]
fill-content bs rest pending (part ∷ parts) f e =
    elim (Bool-cases (leb (length bs) (length pending))) [
      | inl enough ↦
          let (got, left) =
            first_part bs pending (joined (part ∷ parts)) rest e (leb→le _ _ enough) in
          (
            record { pending = drop (length bs) pending; parts = part ∷ parts },
            rw (fill, enough, got) refl,
            left,
            f,
          )
      | inr short ↦
          let (tail, is, others) =
            later_part bs pending (joined (part ∷ parts)) rest e
              (lt_of_leb (length bs) (length pending) short) in
          let (w, filled, left, g) = fill-content tail rest part parts f.1 others in
          (
            w,
            fill_step (length bs) (length tail) pending part parts tail w short
                  (omega (arith, ap length is, length-append pending tail)) filled
                ∙ ap (λ x. ok (x, w)) (sym is),
            left,
            g,
          )
    ]

take-content :
    (bs rest : Bytes) (w : Wire)
    → length bs ≤ chunk
    → AreFilled w.parts
    → content w ≡ bs ++ rest
    → (v : Wire) × (take (length bs) w ≡ ok (bs, v)) × (content v ≡ rest) × AreFilled v.parts
unfolding take
take-content bs rest w h f e =
    let (v, filled, left, g) = fill-content bs rest w.pending w.parts f e in
    (v, rw (le→leb (length bs) (chunk + 2048) (omega (arith, h))) filled, left, g)

size_of-header : (kind size : ℕ) → size < 2 ^ 32 → size_of (header kind size) ≡ size
unfolding header
size_of-header kind size h = omega (arith, h)

not_above : (n m : ℕ) → n ≤ m → ltb m n ≡ false
not_above n m h = ground (arith, h)

kind_of-header : (kind size : ℕ) → kind < 256 → kind_of (header kind size) ≡ kind
unfolding header
kind_of-header kind size h = omega (arith, h)

frame_bytes :
    (kind : ℕ) (body written : Bytes)
    → length body ≤ chunk
    → frame kind body ≡ ok written
    → written ≡ header kind (length body) ++ body
unfolding frame
frame_bytes kind body written h is = ground (arith, h, is)

read_frame_steps :
    (w v u : Wire) (head body : Bytes) (n : ℕ)
    → take 5 w ≡ ok (head, v)
    → size_of head ≡ n
    → n ≤ chunk
    → take n v ≡ ok (body, u)
    → read_frame w ≡ ok (record { kind = kind_of head; body = body }, u)
unfolding read_frame
read_frame_steps w v u head body n headed size h filled =
    rw (headed, size, not_above n chunk h, filled) refl

-- A frame written is read back, with what follows it left on the wire, whatever the parts are in
-- which the bytes arrive, for a kind of one byte and a body of one chunk at most.
pub read_frame-frame :
    (kind : ℕ) (body written rest : Bytes) (w : Wire)
    → kind < 256
    → length body ≤ chunk
    → frame kind body ≡ ok written
    → AreFilled w.parts
    → content w ≡ written ++ rest
    → (v : Wire) × (read_frame w ≡ ok (record { kind = kind; body = body }, v))
      × (content v ≡ rest)
      × AreFilled v.parts
unfolding header
read_frame-frame kind body written rest w k h is f e =
    let size = size_of-header kind (length body) (omega (arith, h)) in
    let (v, headed, left, g) =
      take-content (header kind (length body)) (body ++ rest) w (omega arith) f (
        e
        ∙ ap (λ x. x ++ rest) (frame_bytes kind body written h is)
        ∙ append_assoc (header kind (length body)) body rest) in
    let (u, filled, others, g) = take-content body rest v h g left in
    (
      u,
      read_frame_steps w v u (header kind (length body)) body (length body) headed size h filled
          ∙ ap (λ x. ok (record { kind = x; body = body }, u))
              (kind_of-header kind (length body) k),
      others,
      g,
    )
