-- ===== src/Core/Heartbeat/Channels/Deadlock.antt =====
-- When the heartbeat goroutine and the receive loop wait for each other for ever.
use eupf.Base.{
  ℕ, zero, suc, ◌+◌, ◌-◌, ◌%◌, ◌^◌, ◌<◌, ◌≤◌, ◌≡◌, ◌↔◌, refl, subst, Bool, true, false, leb, ◌==◌,
  if◌then◌else◌, arith,
}
use eupf.Core.Connection.{NodeAssociation, new_sequence_id}
use eupf.Core.Heartbeat.{
  Scheduler, Turn, goes_on, gives_up, ask, heartbeat, timeout, count_failure, take_up,
  start_heartbeat,
}
use eupf.Core.Heartbeat.Channels.{
  SchedulerAt, asking, waiting, resting, failing, ended, LoopAt, polling, handing, System, system,
  after_turn, Step, asks, times_out, hears, rests, is_deleted, responds, is_unknown, Steps, start,
  step, set_up,
}

-- The goroutine waits for the loop to take up the failure, the loop for the goroutine to take up a
-- sequence number.
abbrev pub Locked : System → Type 0
Locked s = (s.scheduler_at ≡ failing) × (seq : ℕ) × (s.loop_at ≡ handing seq)

abbrev pub Stuck : ℕ → System → Type 0
Stuck retries s = (t : System) → ¬ Step retries s t

-- A goroutine that has gone was taken up by the loop, which was in its select, and its association
-- is deleted.
abbrev LeftAlone : SchedulerAt → LoopAt → Bool → Type 0
LeftAlone ended polling false = Unit
LeftAlone ended polling true = ⊥
LeftAlone ended (handing seq) p = ⊥
LeftAlone _ l p = Unit

abbrev IsLeft : System → Type 0
IsLeft s = LeftAlone s.scheduler_at s.loop_at s.present

turn-IsLeft :
    (t : Turn) (b : Bool) (l : LoopAt) (p : Bool)
    → IsLeft (after_turn (if b then resting else asking) l p t)
turn-IsLeft (goes_on s) true l p = tt
turn-IsLeft (goes_on s) false l p = tt
turn-IsLeft (gives_up s) b l p = tt

Step-IsLeft : {retries : ℕ} {s t : System} → Step retries s t → IsLeft s → IsLeft t
Step-IsLeft (asks s l p) h = tt
Step-IsLeft {retries} (times_out s sequence l p) h =
    turn-IsLeft (take_up retries sequence timeout s) false l p
Step-IsLeft (hears s sequence seq p) h =
    turn-IsLeft (take_up 0 sequence (heartbeat seq) s) (sequence == seq) polling p
Step-IsLeft (rests s l p) h = tt
Step-IsLeft (is_deleted s p) h = tt
Step-IsLeft (responds s asking seq) h = tt
Step-IsLeft (responds s (waiting n) seq) h = tt
Step-IsLeft (responds s resting seq) h = tt
Step-IsLeft (responds s failing seq) h = tt
Step-IsLeft (responds s ended seq) h = h
Step-IsLeft (is_unknown s a) h = h

Steps-IsLeft :
    {retries : ℕ} {a : NodeAssociation} {s : System} → Steps retries (set_up a) s → IsLeft s
Steps-IsLeft start = tt
Steps-IsLeft (step r d) = Step-IsLeft d (Steps-IsLeft r)

Stuck-Locked :
    (retries : ℕ) (s : Scheduler) (a : SchedulerAt) (l : LoopAt) (p : Bool)
    → LeftAlone a l p
    → Stuck retries (system s a l p)
    → Locked (system s a l p)
Stuck-Locked retries s a polling true i h = absurd (h _ (responds s a 0))
Stuck-Locked retries s a polling false i h = absurd (h _ (is_unknown s a))
Stuck-Locked retries s asking (handing n) p i h = absurd (h _ (asks s (handing n) p))
Stuck-Locked retries s (waiting k) (handing n) p i h = absurd (h _ (hears s k n p))
Stuck-Locked retries s resting (handing n) p i h = absurd (h _ (rests s (handing n) p))
Stuck-Locked retries s failing (handing n) p i h = (refl, n, refl)
Stuck-Locked retries s ended (handing n) p i h = absurd i

Locked-Stuck : (retries : ℕ) (s t : System) → Locked s → ¬ Step retries s t
Locked-Stuck retries s t h (asks _ l p) = ground (arith, h)
Locked-Stuck retries s t h (times_out _ sequence l p) = ground (arith, h)
Locked-Stuck retries s t h (hears _ sequence seq p) = ground (arith, h)
Locked-Stuck retries s t h (rests _ l p) = ground (arith, h)
Locked-Stuck retries s t h (is_deleted _ p) = ground (arith, h)
Locked-Stuck retries s t h (responds _ a seq) = ground (arith, h)
Locked-Stuck retries s t h (is_unknown _ a) = ground (arith, h)

-- In the states that the heartbeat goroutine of a new association and the receive loop reach, with
-- any Heartbeat Responses from the peer, neither can ever go on just where the goroutine is sending
-- the failure of the association and the loop is handing it a sequence number: everywhere else one
-- of the two can take a step.
pub Stuck-iff-Locked :
    (retries : ℕ) (a : NodeAssociation) (s : System)
    → Steps retries (set_up a) s
    → Stuck retries s ↔ Locked s
Stuck-iff-Locked retries a s r = (
  Stuck-Locked retries s.scheduler s.scheduler_at s.loop_at s.present (Steps-IsLeft r),
  λ h t. Locked-Stuck retries s t h,
)

abbrev sent : Scheduler → Scheduler
sent s = ask (new_sequence_id s.association) s

abbrev failed_once : Scheduler → Scheduler
failed_once s = record (sent s) { failed_heartbeats = (s.failed_heartbeats + 1) % 2 ^ 32 }

count_failure-low :
    (retries : ℕ) (s : Scheduler)
    → leb retries ((s.failed_heartbeats + 1) % 2 ^ 32) ≡ false
    → count_failure retries (sent s) ≡ goes_on (failed_once s)
count_failure-low retries s h = rw h refl

count_failure-high :
    (retries : ℕ) (s : Scheduler)
    → leb retries ((s.failed_heartbeats + 1) % 2 ^ 32) ≡ true
    → count_failure retries (sent s) ≡ gives_up (failed_once s)
count_failure-high retries s h = rw h refl

-- A request that is not answered, before the limit.
one_failure :
    (retries : ℕ) (a : NodeAssociation) (s : Scheduler)
    → leb retries ((s.failed_heartbeats + 1) % 2 ^ 32) ≡ false
    → Steps retries (set_up a) (system s asking polling true)
    → Steps retries (set_up a) (system (failed_once s) asking polling true)
one_failure retries a s h r =
    subst (λ t. Steps retries (set_up a) (after_turn asking polling true t))
      (count_failure-low retries s h)
      (step (step r (asks s polling true))
        (times_out (sent s) (new_sequence_id s.association).0 polling true))

unanswered :
    (retries k : ℕ) (a : NodeAssociation)
    → suc k ≤ retries
    → retries < 2 ^ 32
    → (s : Scheduler) × Steps retries (set_up a) (system s asking polling true)
      × (s.failed_heartbeats ≡ k)
unanswered retries zero a h b = (start_heartbeat a, start, refl)
unanswered retries (suc k) a h b =
    let (s, r, e) = unanswered retries k a (omega (arith, h)) b in
    (failed_once s, one_failure retries a s (ground (arith, e, h, b)) r, ground (arith, e, h, b))

-- The last request is answered when the time is up: the loop hands the number over while the
-- goroutine, whose select finds both ready, takes the timer.
last_failure :
    (retries : ℕ) (a : NodeAssociation) (s : Scheduler)
    → leb retries ((s.failed_heartbeats + 1) % 2 ^ 32) ≡ true
    → Steps retries (set_up a) (system s asking polling true)
    → Steps retries (set_up a) (system (failed_once s) failing (handing 0) true)
last_failure retries a s h r =
    subst (λ t. Steps retries (set_up a) (after_turn asking (handing 0) true t))
      (count_failure-high retries s h)
      (step
        (step (step r (asks s polling true))
          (responds (sent s) (waiting (new_sequence_id s.association).0) 0))
        (times_out (sent s) (new_sequence_id s.association).0 (handing 0) true))

-- For every limit of heartbeat retries that is a positive uint32, the heartbeat goroutine of any
-- association and the receive loop can come to a state in which neither goes on ever again: each
-- waits for the other, the loop handles no message any more, and the association stays.
pub Locked-reached :
    (retries : ℕ) (a : NodeAssociation)
    → 0 < retries
    → retries < 2 ^ 32
    → (s : System) × Steps retries (set_up a) s × (Stuck retries s) × (s.present ≡ true)
Locked-reached retries a h b =
    let (s, r, e) = unanswered retries (retries - 1) a (omega (arith, h)) b in
    (
      system (failed_once s) failing (handing 0) true,
      last_failure retries a s (ground (arith, e, h, b)) r,
      λ t. Locked-Stuck retries (system (failed_once s) failing (handing 0) true) t (refl, 0, refl),
      refl,
    )
