-- ===== src/Probe/Anchors.antt =====
-- When a cleanup that the supervisor starts is due: the moment its budget counts from.
use memeloop_token_center_mi.Common.{ℕ, ◌+◌, ◌≤◌, ◌<◌, min, String, ◌≡◌, Option, none, some}
use memeloop_token_center_mi.Probe.Lifecycle.{
  ProbeExit, Wait, exited, not_yet, failed, exit_of, Environment, Action, wait, sigterm, sigkill,
  clean,
}

-- the exit that the supervisor sees: that of the first wait, or else that of the second
abbrev seen_exit : Wait → Wait → Option ProbeExit
seen_exit (exited e) second = some e
seen_exit not_yet second = exit_of second
seen_exit failed second = exit_of second

module _ (parse_date : String → Option ℕ) (to_iso : ℕ → String) where
  -- the moment a cleanup counts from, after an exit with such a receipt
  abbrev IsReceiptAnchor : Option (Option String) → ℕ → ℕ → Type 0
  IsReceiptAnchor (some (some at)) finished anchor = parse_date at ≡ some anchor
  IsReceiptAnchor (some none) finished anchor = anchor ≡ finished
  IsReceiptAnchor none finished anchor = anchor ≡ finished

  -- The moment a cleanup counts from: after an exit, the start of the operator's own cleanup, if its
  -- receipt tells one, and else its end; without an exit, the moment it was told to stop.
  abbrev pub IsAnchor : Option ProbeExit → ℕ → ℕ → Type 0
  IsAnchor none stop_at anchor = parse_date (to_iso stop_at) ≡ some anchor
  IsAnchor (some e) stop_at anchor = IsReceiptAnchor e.receipt e.finished_at anchor

  module _ (env : Environment) (started_at : ℕ) where
    -- A cleanup is due one budget of 30 seconds after its anchor, which is not after the entry, or at
    -- the outer deadline, if that is earlier; and this is still ahead when it is started.
    abbrev pub IsDue : Action → Type 0
    IsDue (clean due) =
        (anchor : ℕ) × IsAnchor (seen_exit env.first_wait env.second_wait) env.stop_at anchor
        × (anchor ≤ env.entry)
        × (due ≡ min (anchor + 30_000) (started_at + 515_000))
        × (env.checked_at < due)
    IsDue (wait deadline) = Unit
    IsDue sigterm = Unit
    IsDue sigkill = Unit
