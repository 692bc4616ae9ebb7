-- ===== src/Probe/Status.antt =====
-- What an accepted observation establishes, and what each status means.
use memeloop_token_center_mi.Common.{
  ℕ, ◌+◌, ◌≤◌, String, ◌≡◌, Bool, true, false, refl, sym, ◌∙◌, Option, none, some, arith, Result,
  ok, >>=-eq-ok, throw_if-eq-ok, not, throw_if,
}
use memeloop_token_center_mi.Probe.Observation.{
  ProbeBudgets, ProbeError, ProbeObservation, ProbeIdentity, Terminated, probe_budget_ms,
  validate_budgets, container_ok, container_started, container_end, is_some, stale_observation,
  invalid_container_state,
}
use memeloop_token_center_mi.Probe.Budget.{
  ProbeDecision, Times, times_of, check_identity, check_exec, check_end, timestamp,
  optional_timestamp, end_timestamp, decision, probe_budget, is_stale,
}

validate_budgets-eq-ok :
    (b : ProbeBudgets) {u : Unit {0}} → validate_budgets b ≡ ok u → b ≡ probe_budget_ms
unfolding validate_budgets
validate_budgets-eq-ok b h = ground arith

module _ (parse_date : String → Option ℕ) where
  timestamp-eq-ok : (v : String) {t : ℕ} → timestamp parse_date v ≡ ok t → parse_date v ≡ some t
  unfolding timestamp
  timestamp-eq-ok v h = ground arith

fresh_order :
    (b : ProbeBudgets) (start collection observed now : ℕ)
    → b ≡ probe_budget_ms
    → is_stale start collection observed now b ≡ false
    → (start ≤ collection)
      × (collection ≤ observed)
      × (observed ≤ now)
      × (now ≤ collection + probe_budget_ms.freshness_ms)
fresh_order b start collection observed now e h = ground arith

true_of_not : (b : Bool) → not b ≡ false → b ≡ true
true_of_not true h = refl
true_of_not false h = cc

decision_of_ok :
    (o : ProbeObservation) (t : Times) (identity : ProbeIdentity) (now : ℕ) (b : ProbeBudgets)
    (d : ProbeDecision)
    → b ≡ probe_budget_ms
    → ◌≡◌ {A = Result ProbeError ProbeDecision} (ok (decision o t identity now b)) (ok d)
    → d ≡ decision o t identity now probe_budget_ms
decision_of_ok o t identity now b d e h = cc

-- The times of an accepted observation, in order.
pub record InOrder (o : ProbeObservation) (t : Times) : Type 0 where
  pub exec_after : (s : ℕ) → t.exec_start ≡ some s → (t.start ≤ s) × (s ≤ t.observed)
  pub end_after : (f : ℕ) → t.finished ≡ some f → (t.start ≤ f) × (f ≤ t.observed)
  pub end_after_exec : (s f : ℕ) → t.exec_start ≡ some s → t.finished ≡ some f → s ≤ f
  pub wrote : o.write_started ≡ true → is_some t.exec_start ≡ true
  pub completed : o.complete ≡ true → o.write_started ≡ true

check-InOrder :
    (o : ProbeObservation) (t : Times) {u v : Unit {0}}
    → check_exec o (record t { finished = none }) ≡ ok u
    → check_end t ≡ ok v
    → InOrder o t
unfolding check_exec check_end
check-InOrder o t h k = record {
  exec_after = λ s e. (ground arith, ground arith);
  end_after = λ s e. (ground arith, ground arith);
  end_after_exec = λ s f e d. ground arith;
  wrote = λ e. ground arith;
  completed = λ e. ground arith;
}

-- What an observation that passes every check says, `t` being the times that it reports.
pub record Observed (parse_date : String → Option ℕ) (o : ProbeObservation)
    (identity : ProbeIdentity) (now : ℕ) (t : Times) : Type 0 where
  pub start_parsed : parse_date o.attempt_started_at ≡ some t.start
  pub observed_parsed : parse_date o.observed_at ≡ some t.observed
  pub collection : ℕ
  pub collection_parsed : parse_date o.collection_started_at ≡ some collection
  pub after_start : t.start ≤ collection
  pub after_collection : collection ≤ t.observed
  pub not_future : t.observed ≤ now
  pub fresh : now ≤ collection + probe_budget_ms.freshness_ms
  pub one_state : container_ok o.state ≡ true
  pub identified : check_identity o identity ≡ ok tt
  pub exec_parsed : optional_timestamp parse_date (container_started o.state) ≡ ok t.exec_start
  pub end_parsed : end_timestamp parse_date (container_end o.state) ≡ ok t.finished
  pub ended : is_some t.finished ≡ is_some (container_end o.state)
  pub in_order : InOrder o t

module _ (parse_date : String → Option ℕ) where
  end_timestamp-ended :
      (e : Option Terminated) {f : Option ℕ}
      → end_timestamp parse_date e ≡ ok f
      → is_some f ≡ is_some e
  unfolding end_timestamp timestamp
  end_timestamp-ended e h = ground arith

  pub probe_budget-Observed :
      (o : ProbeObservation) (identity : ProbeIdentity) (now : ℕ) (b : ProbeBudgets)
      (d : ProbeDecision)
      → probe_budget parse_date o identity now b ≡ ok d
      → (t : Times) × Observed parse_date o identity now t
        × (d ≡ decision o t identity now probe_budget_ms)
  unfolding probe_budget
  probe_budget-Observed o identity now b d h =
      let (u1, h1, k1) = >>=-eq-ok (validate_budgets b) _ h in
      let (u2, h2, k2) = >>=-eq-ok (check_identity o identity) _ k1 in
      let (start, h3, k3) = >>=-eq-ok (timestamp parse_date o.attempt_started_at) _ k2 in
      let (collection, h4, k4) = >>=-eq-ok (timestamp parse_date o.collection_started_at) _ k3 in
      let (observed, h5, k5) = >>=-eq-ok (timestamp parse_date o.observed_at) _ k4 in
      let (u6, h6, k6) =
        >>=-eq-ok (throw_if (is_stale start collection observed now b) stale_observation) _ k5 in
      let (u7, h7, k7) =
        >>=-eq-ok (throw_if (not (container_ok o.state)) invalid_container_state) _ k6 in
      let (exec_start, h8, k8) =
        >>=-eq-ok (optional_timestamp parse_date (container_started o.state)) _ k7 in
      let (u9, h9, k9) = >>=-eq-ok (check_exec o (times_of start observed exec_start none)) _ k8 in
      let (finished, h10, k10) =
        >>=-eq-ok (end_timestamp parse_date (container_end o.state)) _ k9 in
      let (u11, h11, k11) =
        >>=-eq-ok (check_end (times_of start observed exec_start finished)) _ k10 in
      let fixed = validate_budgets-eq-ok b h1 in
      let order = fresh_order b start collection observed now fixed (throw_if-eq-ok _ _ h6) in
      let t = times_of start observed exec_start finished in
      (
        t,
        record {
          start_parsed = timestamp-eq-ok parse_date _ h3;
          observed_parsed = timestamp-eq-ok parse_date _ h5;
          collection = collection;
          collection_parsed = timestamp-eq-ok parse_date _ h4;
          after_start = order.0;
          after_collection = order.1;
          not_future = order.2;
          fresh = order.3;
          one_state = true_of_not _ (throw_if-eq-ok _ _ h7);
          identified = h2;
          exec_parsed = h8;
          end_parsed = h10;
          ended = end_timestamp-ended _ h10;
          in_order = check-InOrder o t h9 h11;
        },
        decision_of_ok o t identity now b d fixed k11,
      )

ok_inj : {A : Type 0} (a b : A) → ◌≡◌ {A = Result ProbeError A} (ok a) (ok b) → a ≡ b
ok_inj a b h = cc

some_inj : (a b : ℕ) → ◌≡◌ {A = Option ℕ} (some a) (some b) → a ≡ b
some_inj a b h = cc

-- An observation reports one set of times.
pub Observed-unique :
    (parse_date : String → Option ℕ) (o : ProbeObservation) (identity : ProbeIdentity)
    (now later : ℕ) (t t' : Times)
    → Observed parse_date o identity now t
    → Observed parse_date o identity later t'
    → t ≡ t'
Observed-unique parse_date o identity now later t t' a b =
    let s = some_inj t.start t'.start (sym a.start_parsed ∙ b.start_parsed) in
    let v = some_inj t.observed t'.observed (sym a.observed_parsed ∙ b.observed_parsed) in
    let e = ok_inj t.exec_start t'.exec_start (sym a.exec_parsed ∙ b.exec_parsed) in
    let f = ok_inj t.finished t'.finished (sym a.end_parsed ∙ b.end_parsed) in
    λ i. record { start = s i; observed = v i; exec_start = e i; finished = f i }
