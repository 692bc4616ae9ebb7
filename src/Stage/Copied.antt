-- ===== src/Stage/Copied.antt =====
-- The loops of `copyProtectedFile` copy the whole source, or refuse it.
use memeloop_token_center_mi.Common.{
  ℕ, zero, suc, ◌+◌, ◌≤◌, ◌<◌, ◌≡◌, refl, sym, ap, ◌∙◌, inl, inr, false, List, [], ◌∷◌, ◌++◌, units,
  length, length-append, length-drop, drop, ltb, Bool-cases, Result, ok, err, arith, ltb→lt,
}
use mathlib.Core.List.{append_assoc, append-nil}
use mathlib.Core.Path.{subst}
use memeloop_token_center_mi.Acts.{◌>>◌, resume_ok}
use memeloop_token_center_mi.Json.Print.{digits_of}
use memeloop_token_center_mi.Stage.Options.{failed}
use memeloop_token_center_mi.Stage.System.{Thrown, staged, Act, System}
use memeloop_token_center_mi.Stage.Copy.{buffer_bytes, write_all, copy_round, copy_bytes}

-- What the loops rely on of two descriptors, where `left` is what is still to be read from the first
-- and `content` what the second file holds: a read returns bytes of the source in order, and none only
-- at its end; a write appends some of the bytes, one at least, and says how many.
pub record IsChannel {S : Type 0} (sys : System S) (from to : ℕ) (left content : S → List ℕ)
    : Type 0 where
  pub read :
      (s : S)
      → (bytes : List ℕ) × ((sys.read from buffer_bytes s).0 ≡ ok bytes)
        × (left s ≡ bytes ++ left (sys.read from buffer_bytes s).1)
        × (bytes ≡ [] → left s ≡ [])
        × (content (sys.read from buffer_bytes s).1 ≡ content s)
  pub write :
      (b : ℕ) (bytes : List ℕ) (s : S)
      → (n : ℕ) × ((sys.write to (b ∷ bytes) s).0 ≡ ok n)
        × (0 < n)
        × (content (sys.write to (b ∷ bytes) s).1 ++ drop n (b ∷ bytes) ≡ content s ++ b ∷ bytes)
        × (left (sys.write to (b ∷ bytes) s).1 ≡ left s)

-- the error of a source that is too large
abbrev pub too_large : ℕ → Thrown
too_large max_bytes = staged (
    failed (
      units "source input exceeds the "
      ++ digits_of (suc max_bytes) max_bytes
      ++ units "-byte copy limit"))

not_over : (m n : ℕ) → ltb m n ≡ false → n ≤ m
not_over m n h = ground (arith, h)

module _ {S : Type 0} (sys : System S) (from to : ℕ) (left content : S → List ℕ)
    (law : IsChannel sys from to left content) where
  -- A buffer is written whole.
  buffer_written :
      (fuel : ℕ) (bytes : List ℕ) (s : S)
      → length bytes ≤ fuel
      → ((write_all sys fuel to bytes s).0 ≡ ok tt)
        × (content (write_all sys fuel to bytes s).1 ≡ content s ++ bytes)
        × (left (write_all sys fuel to bytes s).1 ≡ left s)
  unfolding write_all
  buffer_written zero [] s h = (refl, sym (append-nil (content s)), refl)
  buffer_written (suc fuel) [] s h = (refl, sym (append-nil (content s)), refl)
  buffer_written zero (b ∷ bytes) s h = absurd (omega (arith, h))
  buffer_written (suc fuel) (b ∷ bytes) s h =
      let (n, is, some', put, same) = law.write b bytes s in
      let t : S = (sys.write to (b ∷ bytes) s).1 in
      let (done, all', others) =
        buffer_written fuel (drop n (b ∷ bytes)) t
          (omega (arith, length-drop n (b ∷ bytes), h, some')) in
      let next =
        resume_ok (sys.write to (b ∷ bytes) s) (λ n. write_all sys fuel to (drop n (b ∷ bytes)))
          is in
      (
        ap (λ r. r.0) next ∙ done,
        ap (λ r. content r.1) next ∙ all' ∙ put,
        ap (λ r. left r.1) next ∙ others ∙ same,
      )

  -- What the loop answers that has copied so many bytes: the rest of the source, or an error.
  abbrev pub IsCopied : ℕ → ℕ → S → Result Thrown (Unit {0}) × S → Type 0
  IsCopied max_bytes total s r =
      (total + length (left s) ≤ max_bytes → (r.0 ≡ ok tt) × (content r.1 ≡ content s ++ left s))
      × (max_bytes < total + length (left s) → r.0 ≡ err (too_large max_bytes))

  module _ (max_bytes total : ℕ) (rest : Act S (Unit {0})) (s t : S) (same : content t ≡ content s)
      (h : total ≤ max_bytes) where
    written_round :
        (b : ℕ) (bytes : List ℕ)
        → left s ≡ b ∷ bytes ++ left t
        → ((u : S) → IsCopied max_bytes (total + suc (length bytes)) u (rest u))
        → IsCopied max_bytes total s ((write_all sys (suc (length bytes)) to (b ∷ bytes) >> rest) t)
    written_round b bytes split' others =
        let (done, put, kept) = buffer_written (suc (length bytes)) (b ∷ bytes) t (omega arith) in
        let u : S = (write_all sys (suc (length bytes)) to (b ∷ bytes) t).1 in
        let next =
          resume_ok (write_all sys (suc (length bytes)) to (b ∷ bytes) t) (λ _. rest) done in
        let size : length (left s) ≡ suc (length bytes) + length (left u) =
          ap length split'
          ∙ length-append (b ∷ bytes) (left t)
          ∙ ap (λ xs. suc (length bytes) + length xs) (sym kept) in
        subst (IsCopied max_bytes total s) (sym next) (
          λ fits.
              let (returned, all') = (others u).0 (omega (arith, fits, size)) in
              (
                returned,
                all'
                    ∙ ap (λ xs. xs ++ left u) (put ∙ ap (λ xs. xs ++ b ∷ bytes) same)
                    ∙ append_assoc (content s) (b ∷ bytes) (left u)
                    ∙ ap (λ xs. content s ++ ((b ∷ bytes) ++ xs)) kept
                    ∙ ap (λ xs. content s ++ xs) (sym split'),
              ),
          λ over. (others u).1 (omega (arith, over, size)),
        )

    copy_round-IsCopied :
        (bytes : List ℕ)
        → left s ≡ bytes ++ left t
        → (bytes ≡ [] → left s ≡ [])
        → ((u : S)
            → total + length bytes ≤ max_bytes
            → 0 < length bytes
            → IsCopied max_bytes (total + length bytes) u (rest u))
        → IsCopied max_bytes total s (copy_round sys rest to max_bytes total bytes t)
    unfolding copy_round
    copy_round-IsCopied [] split' end others = (
      λ _.
          (refl, same ∙ sym (append-nil (content s)) ∙ ap (λ xs. content s ++ xs) (sym (end refl))),
      λ over. absurd (omega (arith, over, h, ap length (end refl))),
    )
    copy_round-IsCopied (b ∷ bytes) split' end others =
        let size : length (left s) ≡ suc (length bytes) + length (left t) =
          ap length split' ∙ length-append (b ∷ bytes) (left t) in
        elim (Bool-cases (ltb max_bytes (total + suc (length bytes)))) [
          | inl over ↦
              (λ fits. absurd (omega (arith, fits, size, ltb→lt _ _ over)), λ _. rw over refl)
          | inr fits ↦ rw fits (
              written_round b bytes split' (λ u.
                others u (not_over max_bytes (total + suc (length bytes)) fits) (omega arith)))
        ]

  copy_bytes-IsCopied :
      (fuel max_bytes total : ℕ) (s : S)
      → total ≤ max_bytes
      → max_bytes + 2 ≤ fuel + total
      → IsCopied max_bytes total s (copy_bytes sys fuel from to max_bytes total s)
  unfolding copy_bytes
  copy_bytes-IsCopied zero max_bytes total s h enough = absurd (omega (arith, h, enough))
  copy_bytes-IsCopied (suc fuel) max_bytes total s h enough =
      let (bytes, is, split', end, same) = law.read s in
      let next =
        resume_ok (sys.read from buffer_bytes s)
          (λ bytes.
            copy_round sys (copy_bytes sys fuel from to max_bytes (total + length bytes)) to
              max_bytes total bytes)
          is in
      subst (IsCopied max_bytes total s) (sym next) (
        copy_round-IsCopied max_bytes total
          (copy_bytes sys fuel from to max_bytes (total + length bytes)) s
          (sys.read from buffer_bytes s).1 same h bytes split' end
          (λ u fits some'.
            copy_bytes-IsCopied fuel max_bytes (total + length bytes) u fits
              (omega (arith, enough, some'))))

  -- Over reads that return the source in order and writes that append one byte at least, the loops
  -- copy the whole of a source within the limit behind what the file holds, and answer a source above
  -- it with the error of its size, the fuel given being enough.
  pub copy_bytes_whole :
      (max_bytes : ℕ) (s : S)
      → IsCopied max_bytes 0 s (copy_bytes sys (suc (suc max_bytes)) from to max_bytes 0 s)
  copy_bytes_whole max_bytes s =
      copy_bytes-IsCopied (suc (suc max_bytes)) max_bytes 0 s (omega arith) (omega arith)
