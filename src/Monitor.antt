-- ===== src/Monitor.antt =====
-- src/starnet_monitor.cpp: the monitor of one worker, as the worker and the monitor thread use it in
-- turn. The messages to the log are the answers; the exit flag and the sleep are left out.
use starnet.Common.{
  ℕ, ◌+◌, ◌%◌, ◌^◌, ◌<◌, ◌≡◌, ◌⊎◌, inl, inr, Bool-cases, refl, Bool, true, false, not, ◌&&◌, Option,
  none, some, List, [], ◌∷◌, ◌==◌, ==_iff, if◌then◌else◌, arith,
}

pub record StarnetMonitor : Type 0 where
  pub version : ℕ
  pub check_version : ℕ
  pub source : ℕ
  pub destination : ℕ
  pub session : ℕ

abbrev pub new_monitor : StarnetMonitor
new_monitor = record { version = 0; check_version = 0; source = 0; destination = 0; session = 0 }

unfoldable pub starnet_monitor_trigger : StarnetMonitor → ℕ → ℕ → ℕ → StarnetMonitor
starnet_monitor_trigger sm source destination session = record sm {
  source = source;
  destination = destination;
  session = session;
  version = (sm.version + 1) % 2 ^ 32;
}

unfoldable pub starnet_monitor_check : StarnetMonitor → StarnetMonitor
starnet_monitor_check sm =
    if not (sm.version == sm.check_version)
    then record sm { check_version = sm.version }
    else record sm { source = 0; destination = 0; session = 0 }

-- The body of the loop of `starnet_monitor_run` for one monitor, and the destination that it reports.
unfoldable pub look : StarnetMonitor → Option ℕ × StarnetMonitor
look sm =
    if not (sm.version == sm.check_version)
    then (
      if sm.destination == 0 then none else some sm.destination,
      record sm { check_version = sm.version },
    )
    else (none, sm)

-- The worker takes a service, has processed its messages, or the monitor thread looks.
pub data MonitorOp : Type 0 where
  takes_service : ℕ → MonitorOp
  processed : MonitorOp
  looks : MonitorOp

unfoldable pub run_monitor : List MonitorOp → StarnetMonitor → List (Option ℕ)
unfolding starnet_monitor_trigger starnet_monitor_check look
run_monitor [] sm = []
run_monitor (takes_service id ∷ ops) sm = run_monitor ops (starnet_monitor_trigger sm 0 id 0)
run_monitor (processed ∷ ops) sm = run_monitor ops (starnet_monitor_check sm)
run_monitor (looks ∷ ops) sm = (look sm).0 ∷ run_monitor ops (look sm).1

-- What is reported: the service that was taken after the last look and is not processed.
unfoldable pub reports : List MonitorOp → ℕ → List (Option ℕ)
reports [] taken = []
reports (takes_service id ∷ ops) taken = reports ops id
reports (processed ∷ ops) taken = reports ops 0
reports (looks ∷ ops) taken = (if taken == 0 then none else some taken) ∷ reports ops 0

-- The worker takes a service only after the last one is processed.
unfoldable pub is_turn : List MonitorOp → Bool → Bool
is_turn [] busy = true
is_turn (takes_service id ∷ ops) busy = let rest = is_turn ops true in not busy && rest
is_turn (processed ∷ ops) busy = let rest = is_turn ops false in busy && rest
is_turn (looks ∷ ops) busy = is_turn ops busy

-- Both versions are equal where there is nothing to report.
record Tracks (sm : StarnetMonitor) (taken : ℕ) (busy : Bool) : Type 0 where
  below : sm.version < 2 ^ 32
  state :
      ((sm.version ≡ sm.check_version) × (taken ≡ 0))
      ⊎ ((sm.version == sm.check_version ≡ false) × (sm.destination ≡ taken) × (busy ≡ true))

trigger-Tracks :
    (sm : StarnetMonitor) (taken id : ℕ)
    → Tracks sm taken false
    → Tracks (starnet_monitor_trigger sm 0 id 0) id true
unfolding starnet_monitor_trigger
trigger-Tracks sm taken id t = elim t.state [
  | inr (e, f, g) ↦ absurd (cc g)
  | inl (e, f) ↦
      let b = t.below in
      record { below = omega arith; state = inr (rw⁻¹ e (ground (arith, b)), refl, refl) }
]

check-Tracks :
    (sm : StarnetMonitor) (taken : ℕ)
    → Tracks sm taken true
    → Tracks (starnet_monitor_check sm) 0 false
unfolding starnet_monitor_check
check-Tracks sm taken t = elim (Bool-cases (sm.version == sm.check_version)) [
  | inl e ↦
      let f : sm.version ≡ sm.check_version = (==_iff sm.version sm.check_version).0 e in
      rw (starnet_monitor_check, e) (record { below = t.below; state = inl (f, refl) })
  | inr e ↦ rw (starnet_monitor_check, e) (record { below = t.below; state = inl (refl, refl) })
]

look-Tracks :
    (sm : StarnetMonitor) (taken : ℕ) (busy : Bool)
    → Tracks sm taken busy
    → ((look sm).0 ≡ (if taken == 0 then none else some taken)) × Tracks (look sm).1 0 busy
unfolding look
look-Tracks sm taken busy t = elim t.state [
  | inl (e, f) ↦
      let g : (sm.version == sm.check_version) ≡ true = (==_iff sm.version sm.check_version).1 e in
      rw (look, g, f) (refl, record { below = t.below; state = inl (e, refl) })
  | inr (e, f, g) ↦ rw (look, e, f) (refl, record { below = t.below; state = inl (refl, refl) })
]

run_monitor-reports_from :
    (ops : List MonitorOp) (sm : StarnetMonitor) (taken : ℕ) (busy : Bool)
    → Tracks sm taken busy
    → is_turn ops busy ≡ true
    → run_monitor ops sm ≡ reports ops taken
unfolding run_monitor reports is_turn
run_monitor-reports_from [] sm taken busy t ok = refl
run_monitor-reports_from (takes_service id ∷ ops) sm taken false t ok =
    run_monitor-reports_from ops _ id true (trigger-Tracks sm taken id t) ok
run_monitor-reports_from (takes_service id ∷ ops) sm taken true t ok = absurd (cc ok)
run_monitor-reports_from (processed ∷ ops) sm taken true t ok =
    run_monitor-reports_from ops _ 0 false (check-Tracks sm taken t) ok
run_monitor-reports_from (processed ∷ ops) sm taken false t ok = absurd (cc ok)
run_monitor-reports_from (looks ∷ ops) sm taken busy t ok =
    let (e, t') = look-Tracks sm taken busy t in
    rw (run_monitor-reports_from ops (look sm).1 0 busy t' ok, e) refl

-- Whatever services a worker takes and processes in turn, and whenever the monitor looks: a look
-- reports the service that was taken since the last look and is not processed yet, and else nothing.
pub run_monitor-reports :
    (ops : List MonitorOp) → is_turn ops false ≡ true → run_monitor ops new_monitor ≡ reports ops 0
run_monitor-reports ops ok =
    run_monitor-reports_from ops new_monitor 0 false
      (record { below = omega arith; state = inl (refl, refl) }) ok
