-- ===== src/Probe/Deadlines.antt =====
-- The bounds within which a probe is supervised and cleaned up.
use memeloop_token_center_mi.Common.{
  Bool-cases, ℕ, ◌+◌, ◌≤◌, min, String, ◌≡◌, refl, Bool, true, false, Option, some, ◌∷◌, ◌++◌, ltb,
  Result, ok, err, arith, All, inl, inr, ◌>>◌, >>=-eq-ok, throw_if, All-append,
}
use memeloop_token_center_mi.Probe.Lifecycle.{
  execution_deadline, Environment, Action, wait, sigterm, sigkill, clean, Stopped, outer_deadline,
  run_process, clean_up, boundary, supervise_probe,
}
use memeloop_token_center_mi.Probe.Observation.{invalid_cleanup_boundary, ProbeError}
use memeloop_token_center_mi.Probe.Budget.{cleanup_deadline, cleanup_anchor}

deadline_of_anchor :
    (entry anchor outer limit : ℕ)
    → (throw_if (ltb entry anchor) invalid_cleanup_boundary >> ok (min (anchor + 30_000) outer))
      ≡ ok limit
    → (anchor ≤ entry) × (limit ≡ min (anchor + 30_000) outer)
deadline_of_anchor entry anchor outer limit h = ground arith

module _ (parse_date : String → Option ℕ) where
  -- A cleanup deadline is one cleanup budget after the anchor, cut off at the outer deadline; the
  -- anchor is not after the entry, so a cleanup never gets more than its budget from its entry on.
  pub cleanup_deadline_bounds :
      (entry outer : ℕ) (started : Option String) (finished : Option ℕ) (limit : ℕ)
      → cleanup_deadline parse_date entry started finished (some outer) ≡ ok limit
      → (limit ≤ outer)
        × (limit ≤ entry + 30_000)
        × ((anchor : ℕ) × (cleanup_anchor parse_date entry started finished ≡ ok anchor)
            × (anchor ≤ entry)
            × (limit ≡ min (anchor + 30_000) outer))
  unfolding cleanup_deadline
  cleanup_deadline_bounds entry outer started finished limit h =
      let (anchor, found, rest) =
        >>=-eq-ok (cleanup_anchor parse_date entry started finished) _ h in
      let (le, cut) = deadline_of_anchor entry anchor outer limit rest in
      (omega arith, omega arith, (anchor, found, le, cut))

abbrev pub Within : ℕ → Action → Type 0
Within limit (wait deadline) = deadline ≤ limit
Within limit (clean deadline) = deadline ≤ limit
Within limit _ = Unit

abbrev pub is_sigterm : Action → Bool
is_sigterm sigterm = true
is_sigterm _ = false

abbrev pub is_sigkill : Action → Bool
is_sigkill sigkill = true
is_sigkill _ = false

abbrev pub is_clean : Action → Bool
is_clean (clean _) = true
is_clean _ = false

module _ (parse_date : String → Option ℕ) (to_iso : ℕ → String) (env : Environment)
    (started_at : ℕ) where
  run_process-Within :
      All (Within (started_at + 515_000)) (run_process parse_date to_iso env started_at).0
  unfolding run_process
  run_process-Within = ground arith

  clean_up-Within :
      (s : Stopped) (r : Result ProbeError ℕ)
      → ((limit : ℕ) → r ≡ ok limit → limit ≤ started_at + 515_000)
      → All (Within (started_at + 515_000)) (clean_up parse_date to_iso env started_at s r).0
  unfolding clean_up
  clean_up-Within s (ok limit) h = ground (arith, h limit refl)
  clean_up-Within s (err e) h = tt

  boundary-le :
      (s : Stopped) (limit : ℕ)
      → boundary parse_date to_iso env started_at s ≡ ok limit
      → limit ≤ started_at + 515_000
  unfolding boundary
  boundary-le s limit h =
      let bounds =
        cleanup_deadline_bounds parse_date env.entry (outer_deadline started_at) _ _ limit h in
      omega (arith, bounds.0)

  pub boundary-le_entry :
      (s : Stopped) (limit : ℕ)
      → boundary parse_date to_iso env started_at s ≡ ok limit
      → limit ≤ env.entry + 30_000
  unfolding boundary
  boundary-le_entry s limit h =
      let bounds =
        cleanup_deadline_bounds parse_date env.entry (outer_deadline started_at) _ _ limit h in
      bounds.1

  started_Within : All (Within (started_at + 515_000)) (
      wait (execution_deadline started_at) ∷ (run_process parse_date to_iso env started_at).0
      ++ (let s = (run_process parse_date to_iso env started_at).1 in
          clean_up parse_date to_iso env started_at s
            (boundary parse_date to_iso env started_at s)).0)
  started_Within =
      let s = (run_process parse_date to_iso env started_at).1 in
      (
        omega arith,
        All-append (Within (started_at + 515_000)) _ _ run_process-Within
            (clean_up-Within s (boundary parse_date to_iso env started_at s) (boundary-le s)),
      )

  -- Whatever the process, the cleanup and the clock do, the supervisor waits for nothing beyond, and
  -- gives the cleanup no deadline beyond, 515 seconds after the start of the operator.
  pub actions_Within :
      All (Within (started_at + 515_000)) (supervise_probe parse_date to_iso env started_at).0
  unfolding supervise_probe
  actions_Within = elim (Bool-cases (ltb env.called_at started_at)) [
    | inl early ↦ rw early tt
    | inr late ↦ rw late (started_Within)
  ]
