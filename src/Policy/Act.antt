-- ===== src/Policy/Act.antt =====
-- Computations of ops/legacy-policy/import-cpa-key-policy.ts that act on the target.
use memeloop_token_center_mi.Acts.{Acting}
use memeloop_token_center_mi.Policy.Schema.{ImportFailure}

abbrev pub Act : Type 0 → Type 0 → Type 0
Act S A = Acting ImportFailure S A
