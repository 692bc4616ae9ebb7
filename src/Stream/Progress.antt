-- ===== src/Stream/Progress.antt =====
-- What a segmented transfer's events confirm is the largest of the counts that they report.
use memeloop_token_center_mi.Common.{
  ℕ, ◌*◌, ◌≤◌, ◌≡◌, refl, sym, ap, ◌∙◌, ◌⊎◌, inl, inr, Bool, true, false, ◌&&◌, List, [], ◌∷◌, ◌++◌,
  All, All-map, All-append, Any, Any-map, leb, ltb, le→leb, leb→le, Bool-cases, if◌then◌else◌, ok,
  err, >>=-eq-ok, ok_inj, arith, ◌>>=◌,
}
use mathlib.Core.Path.{subst}
use memeloop_token_center_mi.Stream.Wire.{CopyError, Copied}
use memeloop_token_center_mi.Stream.Observation.{
  Field, undefined, other, natural, Event, segmented_bytes, segment_bytes, larger, confirm_bytes,
  confirm_segment, confirm_event, confirm_events, confirmed_segmented_bytes,
}

-- The counts that an event reports: the bytes it names, and the end of the segment acknowledged.
abbrev pub bytes_reported : Field → List ℕ
bytes_reported (natural n) = n ∷ []
bytes_reported _ = []

abbrev pub segment_reported : Bool → Field → List ℕ
segment_reported true (natural n) = n * segment_bytes ∷ []
segment_reported _ _ = []

abbrev pub reports : List Event → List ℕ
reports [] = []
reports (e ∷ es) =
    (bytes_reported e.confirmed_bytes ++ segment_reported e.is_ack_read e.segment) ++ reports es

-- what an event may hold
abbrev pub IsCount : Field → Type 0
IsCount undefined = Unit
IsCount other = ⊥
IsCount (natural n) = n ≤ segmented_bytes

abbrev pub IsSegment : Bool → Field → Type 0
IsSegment true (natural n) = (1 ≤ n) × (n ≤ 4)
IsSegment true _ = ⊥
IsSegment false _ = Unit

abbrev pub IsReport : Event → Type 0
IsReport e = IsCount e.confirmed_bytes × IsSegment e.is_ack_read e.segment

-- The number is the largest of one and of the others.
abbrev pub IsLargest : ℕ → List ℕ → ℕ → Type 0
IsLargest m ns c = (m ≤ c) × All (λ n. n ≤ c) ns × ((c ≡ m) ⊎ Any (λ n. n ≡ c) ns)

Any-left : (c : ℕ) (ms ns : List ℕ) → Any (λ n. n ≡ c) ms → Any (λ n. n ≡ c) (ms ++ ns)
Any-left c [] ns h = absurd h.lower
Any-left c (m ∷ ms) ns (inl h) = inl h
Any-left c (m ∷ ms) ns (inr h) = inr (Any-left c ms ns h)

Any-right : (c : ℕ) (ms ns : List ℕ) → Any (λ n. n ≡ c) ns → Any (λ n. n ≡ c) (ms ++ ns)
Any-right c [] ns h = h
Any-right c (m ∷ ms) ns h = inr (Any-right c ms ns h)

reached :
    (m c d : ℕ) (ms ns : List ℕ)
    → (c ≡ m) ⊎ Any (λ n. n ≡ c) ms
    → (d ≡ c) ⊎ Any (λ n. n ≡ d) ns
    → (d ≡ m) ⊎ Any (λ n. n ≡ d) (ms ++ ns)
reached m c d ms ns h (inr k) = inr (Any-right d ms ns k)
reached m c d ms ns (inl h) (inl k) = inl (k ∙ h)
reached m c d ms ns (inr h) (inl k) = inr (Any-left d ms ns (Any-map ms (λ n e. e ∙ sym k) h))

IsLargest-then :
    (m c d : ℕ) (ms ns : List ℕ) → IsLargest m ms c → IsLargest c ns d → IsLargest m (ms ++ ns) d
IsLargest-then m c d ms ns (low, all', is) (more, others, has) = (
  omega (arith, low, more),
  All-append (λ n. n ≤ d) ms ns (All-map ms (λ n k. omega (arith, k, more)) all') others,
  reached m c d ms ns is has,
)

larger_cases : (m n : ℕ) → IsLargest m (n ∷ []) (larger m n)
larger_cases m n = elim (Bool-cases (ltb m n)) [
  | inl h ↦ rw h (ground (arith, h), (omega arith, tt), inr (inl refl))
  | inr h ↦ rw h (omega arith, (ground (arith, h), tt), inl refl)
]

larger_bound : (m n k : ℕ) → m ≤ k → n ≤ k → larger m n ≤ k
larger_bound m n k h l = elim (Bool-cases (ltb m n)) [ inl e ↦ rw e l | inr e ↦ rw e h ]

-- A step returns where it may, the largest of what it had and what it sees, and where it returns it may.
abbrev IsStep : Type 0 → ℕ → List ℕ → Copied ℕ → Type 0
IsStep P m ns r =
    (P → (c : ℕ) × (r ≡ ok c) × IsLargest m ns c × (c ≤ segmented_bytes)) × ((c : ℕ) → r ≡ ok c → P)

IsStep-then :
    (P Q : Type 0) (m : ℕ) (ms ns : List ℕ) (r : Copied ℕ) (next : ℕ → Copied ℕ)
    → IsStep P m ms r
    → ((c : ℕ) → c ≤ segmented_bytes → IsStep Q c ns (next c))
    → IsStep (P × Q) m (ms ++ ns) (r >>= next)
IsStep-then P Q m ms ns r next (runs, sound) k = (
  λ (p, q).
      let (c, is, large, bound) = runs p in
      let (d, then', more, fits) = (k c bound).0 q in
      (d, ap (λ r. r >>= next) is ∙ then', IsLargest-then m c d ms ns large more, fits),
  λ d h.
      let (c, is, rest) = >>=-eq-ok r next h in
      let (c', is', _, bound) = runs (sound c is) in
      (sound c is, (k c (subst (λ n. n ≤ segmented_bytes) (ok_inj (sym is' ∙ is)) bound)).1 d rest),
)

not_yes : false ≡ true → ⊥
not_yes h = cc

-- A number that is kept where a test lets it through.
tested-IsStep :
    (P : Type 0) (b : Bool) (m n : ℕ) (e : CopyError)
    → m ≤ segmented_bytes
    → (P → (b ≡ true) × (n ≤ segmented_bytes))
    → (b ≡ true → P)
    → IsStep P m (n ∷ []) (if b then ok (larger m n) else err e)
tested-IsStep P true m n e h k l = (
  λ p. (larger m n, refl, larger_cases m n, larger_bound m n segmented_bytes h (k p).1),
  λ _ _. l refl,
)
tested-IsStep P false m n e h k l = (λ p. absurd (not_yes (k p).0), λ c i. cc)

same-IsStep : (m : ℕ) → m ≤ segmented_bytes → IsStep (Unit {0}) m [] (ok m)
same-IsStep m h = (λ _. (m, refl, (omega arith, tt, inl refl), h), λ _ _. tt)

bytes-IsStep :
    (f : Field) (m : ℕ)
    → m ≤ segmented_bytes
    → IsStep (IsCount f) m (bytes_reported f) (confirm_bytes f m)
unfolding confirm_bytes
bytes-IsStep undefined m h = same-IsStep m h
bytes-IsStep other m h = (λ k. absurd k, λ c e. cc)
bytes-IsStep (natural n) m h =
    tested-IsStep (n ≤ segmented_bytes) (leb n segmented_bytes) m n _ h
      (λ k. (le→leb n segmented_bytes k, k)) (leb→le n segmented_bytes)

IsSegment-IsStep :
    (ack : Bool) (f : Field) (m : ℕ)
    → m ≤ segmented_bytes
    → IsStep
        (IsSegment ack f)
        m
        (segment_reported ack f)
        (if ack then confirm_segment f m else ok m)
unfolding confirm_segment
IsSegment-IsStep false f m h = same-IsStep m h
IsSegment-IsStep true undefined m h = (λ k. absurd k, λ c e. cc)
IsSegment-IsStep true other m h = (λ k. absurd k, λ c e. cc)
IsSegment-IsStep true (natural n) m h =
    tested-IsStep ((1 ≤ n) × (n ≤ 4)) (leb 1 n && leb n 4) m (n * segment_bytes) _ h
      (λ k. (ground (arith, k.0, k.1), omega (arith, k.1)))
      (λ e. (ground (arith, e), ground (arith, e)))

events-IsStep :
    (events : List Event) (m : ℕ)
    → m ≤ segmented_bytes
    → IsStep (All IsReport events) m (reports events) (confirm_events events m)
unfolding confirm_events confirm_event
events-IsStep [] m h = same-IsStep m h
events-IsStep (e ∷ es) m h =
    IsStep-then (IsReport e) (All IsReport es) m
      (bytes_reported e.confirmed_bytes ++ segment_reported e.is_ack_read e.segment) (reports es)
      (confirm_event e m) (confirm_events es)
      (IsStep-then (IsCount e.confirmed_bytes) (IsSegment e.is_ack_read e.segment) m
        (bytes_reported e.confirmed_bytes) (segment_reported e.is_ack_read e.segment)
        (confirm_bytes e.confirmed_bytes m) _ (bytes-IsStep e.confirmed_bytes m h)
        (λ c k. IsSegment-IsStep e.is_ack_read e.segment c k))
      (λ c k. events-IsStep es c k)

-- From a count within the size of the transfer, the function returns exactly where every event's bytes
-- are within the size and every acknowledged segment is one of the four; what it returns is then the
-- largest of the count and of all that the events report, and within the size.
pub confirmed_segmented_bytes-IsLargest :
    (events : List Event) (previous : ℕ)
    → previous ≤ segmented_bytes
    → (All IsReport events
        → (c : ℕ) × (confirmed_segmented_bytes events previous ≡ ok c)
          × IsLargest previous (reports events) c
          × (c ≤ segmented_bytes))
      × ((c : ℕ) → confirmed_segmented_bytes events previous ≡ ok c → All IsReport events)
unfolding confirmed_segmented_bytes
confirmed_segmented_bytes-IsLargest events previous h =
    rw (le→leb previous segmented_bytes h) (events-IsStep events previous h)
