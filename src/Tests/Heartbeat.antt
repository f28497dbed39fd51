-- ===== src/Tests/Heartbeat.antt =====
-- Runs of the heartbeat scheduler of cmd/core/node_association.go, alone and with the receive loop.
use eupf.Base.{◌+◌, ◌≤◌, ◌≡◌, ◌↔◌, refl, true, arith, [], ◌∷◌, leb}
use eupf.Core.Heartbeat.Channels.{System, Steps, start, set_up}
use eupf.Core.Heartbeat.Channels.Deadlock.{Locked, Stuck, Stuck-iff-Locked, Locked-reached}
use eupf.Core.Connection.{NodeAssociation, new_node_association, new_sequence_id}
use eupf.Core.Heartbeat.{Scheduler, timeout, schedule_heartbeat, start_heartbeat}
use eupf.Core.Heartbeat.Failure.{given_up, timeouts, silence, given_up-silence, given_up-answered}

abbrev fresh : Scheduler
fresh = start_heartbeat (new_node_association "smf" "smf")

given_up-silence_example :
    given_up (schedule_heartbeat 3 (silence 3) fresh) ≡ leb 3 (fresh.failed_heartbeats + 3)
given_up-silence_example = given_up-silence 3 3 fresh (omega arith) (omega arith)

given_up-answered_example : 2 ≤ timeouts (timeout ∷ timeout ∷ [])
unfolding schedule_heartbeat new_node_association new_sequence_id
given_up-answered_example = given_up-answered 2 (timeout ∷ timeout ∷ []) fresh refl

abbrev smf : NodeAssociation
smf = new_node_association "smf" "smf"

Stuck-iff-Locked_example : Stuck 3 (set_up smf) ↔ Locked (set_up smf)
Stuck-iff-Locked_example = Stuck-iff-Locked 3 smf (set_up smf) start

Locked-reached_example : (s : System) × Steps 3 (set_up smf) s × Stuck 3 s × (s.present ≡ true)
Locked-reached_example = Locked-reached 3 smf (omega arith) (omega arith)
