-- ===== src/Core/Heartbeat/Channels.antt =====
-- The goroutine ScheduleHeartbeat of cmd/core/node_association.go and the receive loop Run of
-- cmd/core/pfcp_connection.go, interleaved: both channels between them are unbuffered, so a send and
-- its receive are one step of the two.
pub mod Deadlock
use eupf.Base.{ℕ, zero, suc, Bool, true, false, ◌==◌, if◌then◌else◌}
use eupf.Core.Connection.{NodeAssociation, new_sequence_id}
use eupf.Core.Heartbeat.{
  Scheduler, Wakeup, timeout, heartbeat, Turn, goes_on, gives_up, ask, take_up, start_heartbeat,
}

-- Where the goroutine is: before NewSequenceID, in its select with the number that it sent, in
-- time.After, at the send on heartbeatFailedC, or gone.
pub data SchedulerAt : Type 0 where
  asking : SchedulerAt
  waiting : ℕ → SchedulerAt
  resting failing ended : SchedulerAt

-- Where the loop is: in its select, or at the send of a sequence number in HandleHeartbeat.
pub data LoopAt : Type 0 where
  polling : LoopAt
  handing : ℕ → LoopAt

-- `present`: the association is in NodeAssociations.
pub record System : Type 0 where
  pub scheduler : Scheduler
  pub scheduler_at : SchedulerAt
  pub loop_at : LoopAt
  pub present : Bool

abbrev pub system : Scheduler → SchedulerAt → LoopAt → Bool → System
system s a l p = record { scheduler = s; scheduler_at = a; loop_at = l; present = p }

-- Where a turn of the select leads to; after an answer in time the goroutine rests.
abbrev pub after_turn : SchedulerAt → LoopAt → Bool → Turn → System
after_turn a l p (goes_on s) = system s a l p
after_turn a l p (gives_up s) = system s failing l p

pub data Step (retries : ℕ) : System → System → Type 0 where
  asks :
      (s : Scheduler) (l : LoopAt) (p : Bool)
      → Step retries (system s asking l p) (
          system
            (ask (new_sequence_id s.association) s)
            (waiting (new_sequence_id s.association).0)
            l
            p)
  times_out :
      (s : Scheduler) (sequence : ℕ) (l : LoopAt) (p : Bool)
      → Step retries
          (system s (waiting sequence) l p)
          (after_turn asking l p (take_up retries sequence timeout s))
  hears :
      (s : Scheduler) (sequence seq : ℕ) (p : Bool)
      → Step retries (system s (waiting sequence) (handing seq) p) (
          after_turn
            (if sequence == seq then resting else asking)
            polling
            p
            (take_up retries sequence (heartbeat seq) s))
  rests :
      (s : Scheduler) (l : LoopAt) (p : Bool)
      → Step retries (system s resting l p) (system s asking l p)
  -- The loop takes the address up and calls DeleteAssociation.
  is_deleted :
      (s : Scheduler) (p : Bool)
      → Step retries (system s failing polling p) (system s ended polling false)
  -- A Heartbeat Response from the peer.
  responds :
      (s : Scheduler) (a : SchedulerAt) (seq : ℕ)
      → Step retries (system s a polling true) (system s a (handing seq) true)
  is_unknown :
      (s : Scheduler) (a : SchedulerAt)
      → Step retries (system s a polling false) (system s a polling false)

pub data Steps (retries : ℕ) (a : System) : System → Type 0 where
  start : Steps retries a a
  step : {b c : System} → Steps retries a b → Step retries b c → Steps retries a c

-- HandlePfcpAssociationSetupRequest has put the association in place and started the goroutine.
abbrev pub set_up : NodeAssociation → System
set_up a = system (start_heartbeat a) asking polling true
