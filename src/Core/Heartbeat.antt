-- ===== src/Core/Heartbeat.antt =====
-- ScheduleHeartbeat of cmd/core/node_association.go: the goroutine that asks a peer for signs of
-- life. What its select takes up is an input: the timer, or a sequence number that
-- HandleHeartbeat puts on the channel of the association.
pub mod Failure
pub mod Channels
use eupf.Base.{ℕ, ◌+◌, ◌%◌, ◌^◌, Bool, true, false, List, [], ◌∷◌, ◌++◌, leb, ◌==◌, if◌then◌else◌}
use eupf.Core.Connection.{NodeAssociation, new_sequence_id}

pub data Wakeup : Type 0 where
  timeout : Wakeup
  heartbeat : ℕ → Wakeup

-- `requests` are the sequence numbers of the Heartbeat Requests that were sent.
pub record Scheduler : Type 0 where
  pub association : NodeAssociation
  pub failed_heartbeats : ℕ
  pub requests : List ℕ

-- The loop goes on, or the address of the association is put on heartbeatFailedC and it ends.
pub data Turn : Type 0 where
  goes_on : Scheduler → Turn
  gives_up : Scheduler → Turn

-- The counter is a uint32.
abbrev pub count_failure : ℕ → Scheduler → Turn
count_failure retries s =
    let failed = (s.failed_heartbeats + 1) % 2 ^ 32 in
    let t = record s { failed_heartbeats = failed } in
    if leb retries failed then gives_up t else goes_on t

abbrev pub take_up : ℕ → ℕ → Wakeup → Scheduler → Turn
take_up retries sequence timeout s = count_failure retries s
take_up retries sequence (heartbeat seq) s =
    goes_on (if sequence == seq then record s { failed_heartbeats = 0 } else s)

abbrev pub ask : ℕ × NodeAssociation → Scheduler → Scheduler
ask (sequence, a) s = record s { association = a; requests = s.requests ++ (sequence ∷ []) }

-- One round of the loop.
unfoldable pub heartbeat_round : ℕ → Wakeup → Scheduler → Turn
unfolding new_sequence_id
heartbeat_round retries w s =
    take_up retries (new_sequence_id s.association).0 w (ask (new_sequence_id s.association) s)

abbrev pub then_on : (Scheduler → Turn) → Turn → Turn
then_on k (goes_on s) = k s
then_on k (gives_up s) = gives_up s

-- The loop for as long as there are wake-ups, or until it ends.
unfoldable pub schedule_heartbeat : ℕ → List Wakeup → Scheduler → Turn
unfolding heartbeat_round
schedule_heartbeat retries [] s = goes_on s
schedule_heartbeat retries (w ∷ ws) s =
    then_on (schedule_heartbeat retries ws) (heartbeat_round retries w s)

-- `go remoteNode.ScheduleHeartbeat(conn)`: no heartbeat has failed.
abbrev pub start_heartbeat : NodeAssociation → Scheduler
start_heartbeat a = record { association = a; failed_heartbeats = 0; requests = [] }
