-- ===== src/Probe/ForcedStop.antt =====
-- What the supervisor does to a process that outlives the second wait.
use memeloop_token_center_mi.Common.{
  ℕ, ◌+◌, ◌≤◌, min, String, ◌≡◌, refl, false, Option, some, [], ◌∷◌, ltb, Result, ok, err, arith,
  ap,
}
use memeloop_token_center_mi.Probe.Observation.{ProbeError}
use memeloop_token_center_mi.Probe.Budget.{cleanup_deadline, cleanup_anchor, timestamp}
use memeloop_token_center_mi.Probe.Lifecycle.{
  not_yet, Environment, wait, sigterm, sigkill, Stopped, outer_deadline, stop_process, run_process,
  clean_up, boundary, supervise_probe,
}

module _ (parse_date : String → Option ℕ) (to_iso : ℕ → String) (env : Environment)
    (started_at : ℕ) where
  clean_up-skips :
      (s : Stopped) (b : Result ProbeError ℕ)
      → ((limit : ℕ) → b ≡ ok limit → limit ≤ env.checked_at)
      → (clean_up parse_date to_iso env started_at s b).0 ≡ []
  unfolding clean_up
  clean_up-skips s (ok limit) h = ground (arith, h limit refl)
  clean_up-skips s (err e) h = refl

  on_time : started_at ≤ env.called_at → ltb env.called_at started_at ≡ false
  on_time h = ground arith

  module _ (first : env.first_wait ≡ not_yet) (second : env.second_wait ≡ not_yet)
      (iso : parse_date (to_iso env.stop_at) ≡ some env.stop_at)
      (waited : min (outer_deadline started_at) (env.stop_at + 35_000) ≤ env.entry)
      (clock : env.entry ≤ env.checked_at) (called : started_at ≤ env.called_at) where
    stopped_late :
        (limit : ℕ)
        → boundary parse_date to_iso env started_at (run_process parse_date to_iso env started_at).1
          ≡ ok limit
        → limit ≤ env.checked_at
    unfolding boundary run_process cleanup_deadline cleanup_anchor timestamp
    stopped_late limit h = ground (arith, iso, first, second)

    killed :
        (run_process parse_date to_iso env started_at).0
        ≡ sigterm ∷ wait (min (started_at + 515_000) (env.stop_at + 35_000)) ∷ sigkill ∷ []
    unfolding run_process stop_process
    killed =
        let e : min (outer_deadline started_at) (env.stop_at + 30_000 + 5_000)
            ≡ min (started_at + 515_000) (env.stop_at + 35_000) =
          omega arith in
        rw (first, second) (ap (λ d. sigterm ∷ wait d ∷ sigkill ∷ []) e)

    -- A process that neither exits by the execution deadline nor within 35 seconds of SIGTERM, or by
    -- the outer deadline, gets SIGTERM and then SIGKILL, and no cleanup is started: the deadline that
    -- the stop anchors has passed when the second wait ends.
    pub forced_skips_cleanup :
        (supervise_probe parse_date to_iso env started_at).0
        ≡ wait (started_at + 480_000)
          ∷ sigterm
          ∷ wait (min (started_at + 515_000) (env.stop_at + 35_000))
          ∷ sigkill
          ∷ []
    unfolding supervise_probe
    forced_skips_cleanup =
        rw
          (
            on_time called,
            killed,
            clean_up-skips (run_process parse_date to_iso env started_at).1
                (boundary parse_date to_iso env started_at
                  (run_process parse_date to_iso env started_at).1)
                stopped_late,
          )
          refl
