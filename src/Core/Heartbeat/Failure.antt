-- ===== src/Core/Heartbeat/Failure.antt =====
-- When ScheduleHeartbeat of cmd/core/node_association.go gives an association up.
use eupf.Base.{
  ℕ, zero, suc, ◌+◌, ◌%◌, ◌^◌, ◌≤◌, ◌<◌, ◌≡◌, refl, Bool, true, false, List, [], ◌∷◌, leb, ◌==◌,
  if◌then◌else◌, arith, ◌⊎◌, ◌∙◌, subst, inl, inr, Bool-cases,
}
use eupf.Core.Connection.{new_sequence_id}
use eupf.Core.Heartbeat.{
  Wakeup, timeout, heartbeat, Scheduler, Turn, goes_on, gives_up, ask, heartbeat_round,
  schedule_heartbeat, then_on,
}

abbrev pub given_up : Turn → Bool
given_up (goes_on s) = false
given_up (gives_up s) = true

abbrev pub timeouts : List Wakeup → ℕ
timeouts [] = 0
timeouts (timeout ∷ ws) = suc (timeouts ws)
timeouts (heartbeat seq ∷ ws) = timeouts ws

-- The peer is silent for `n` rounds.
abbrev pub silence : ℕ → List Wakeup
silence zero = []
silence (suc n) = timeout ∷ silence n

stops_or_goes :
    (b : Bool) (t : Scheduler) (k : Scheduler → Turn)
    → given_up (then_on k (if b then gives_up t else goes_on t)) ≡ true
    → (b ≡ true) ⊎ (given_up (k t) ≡ true)
stops_or_goes true t k h = inl refl
stops_or_goes false t k h = inr h

reset-le :
    (b : Bool) (s : Scheduler)
    → (if b then record s { failed_heartbeats = 0 } else s).failed_heartbeats ≤ s.failed_heartbeats
reset-le true s = omega arith
reset-le false s = omega arith

-- If ScheduleHeartbeat has counted some failures and gives the association up after some
-- wake-ups, these failures and the timeouts among the wake-ups are together at least the
-- configured retries.
given_up-le :
    (retries : ℕ) (ws : List Wakeup) (s : Scheduler)
    → given_up (schedule_heartbeat retries ws s) ≡ true
    → retries ≤ s.failed_heartbeats + timeouts ws
unfolding schedule_heartbeat heartbeat_round
given_up-le retries [] s h = ground (arith, h)
given_up-le retries (timeout ∷ ws) s h =
    let failed = (s.failed_heartbeats + 1) % 2 ^ 32 in
    let a = new_sequence_id s.association in
    let t = record (ask a s) { failed_heartbeats = failed } in
    elim (stops_or_goes (leb retries failed) t (schedule_heartbeat retries ws) h) [
      | inl e ↦ ground (arith, e)
      | inr e ↦ omega (arith, given_up-le retries ws t e)
    ]
given_up-le retries (heartbeat seq ∷ ws) s h =
    let a = new_sequence_id s.association in
    let t = if a.0 == seq then record (ask a s) { failed_heartbeats = 0 } else ask a s in
    omega (arith, given_up-le retries ws t h, reset-le (a.0 == seq) (ask a s))

-- A peer that stays silent is given up exactly when the failures counted before and the silent
-- rounds reach the configured retries, where these are more than the failures counted before and
-- fit in a uint32.
pub given_up-silence :
    (retries n : ℕ) (s : Scheduler)
    → s.failed_heartbeats < retries
    → retries < 2 ^ 32
    → given_up (schedule_heartbeat retries (silence n) s) ≡ leb retries (s.failed_heartbeats + n)
unfolding schedule_heartbeat heartbeat_round
given_up-silence retries zero s h small = ground arith
given_up-silence retries (suc n) s h small =
    let failed = (s.failed_heartbeats + 1) % 2 ^ 32 in
    let t = record (ask (new_sequence_id s.association) s) { failed_heartbeats = failed } in
    elim (Bool-cases (leb retries failed)) [
      | inl e ↦ rw e (ground (arith, e))
      | inr e ↦ rw e (given_up-silence retries n t (ground (arith, e)) small ∙ ground (arith, e))
    ]

-- After the peer has answered a heartbeat with its sequence number, the association is given up
-- only after as many timeouts as the configured retries, whatever failed before the answer.
pub given_up-answered :
    (retries : ℕ) (ws : List Wakeup) (s : Scheduler)
    → given_up (schedule_heartbeat retries (heartbeat (new_sequence_id s.association).0 ∷ ws) s)
      ≡ true
    → retries ≤ timeouts ws
unfolding schedule_heartbeat heartbeat_round
given_up-answered retries ws s h =
    let a = new_sequence_id s.association in
    let own : (a.0 == a.0) ≡ true = ground arith in
    let t = record (ask a s) { failed_heartbeats = 0 } in
    omega (
      arith,
      given_up-le retries ws t (
          subst
            (λ b.
              given_up (
                schedule_heartbeat retries ws
                  (if b then record (ask a s) { failed_heartbeats = 0 } else ask a s))
              ≡ true)
            own h),
    )
