-- ===== src/Tests/Core.antt =====
-- Runs of cmd/core, and its theorems at them.
use eupf.Base.{◌+◌}
use eupf.Base.{◌≡◌, refl, arith, true, ◌&&◌, none, some, nat_eq, string_eq, if◌then◌else◌}
use eupf.Base.Outcome.{for_each}
use eupf.Base.Table.Total.{total}
use eupf.Ebpf.IdTracker.{get_next, new_id_tracker}
use eupf.Ebpf.Objects as Objects
use eupf.Core.Handlers.Apply.{create_rules, create_far, create_qer, create_pdr}
use eupf.Base.Table.{lookup, insert}
use eupf.Base.MapOrder.{kept_order}
use eupf.Ebpf.Objects.{BpfObjects}
use eupf.Core.Session.{Session}
use eupf.Core.Connection.{get_session_count, new_node_association}
use eupf.Core.Handlers.Effects.{find_session, cause_of, is_accepted, fseid_of}
use eupf.Core.Handlers.Effects.Established.{
  establishment-effect, establishment-keeps, effect, cp_seid,
}
use eupf.Core.Handlers.Effects.Answered.{establishment-answers}
use eupf.Core.Handlers.Effects.Counts.{counted, get_session_count-accepted}
use eupf.Core.Handlers.Effects.Deleted.{deletion-effect}
use eupf.Core.Handlers.Effects.Modified.{modification-effect, then_changed}
use eupf.Core.Handlers.Effects.Associated.{association_setup-sessions, delete_association-sessions}
use eupf.Core.Handlers.Establishment.{handle_session_establishment_request, validate_request}
use eupf.Core.Handlers.Modification.{handle_session_modification_request}
use eupf.Core.Handlers.Association.{
  handle_association_setup_request, handle_association_setup_response,
}
use eupf.Core.Handlers.Deletion.{handle_session_deletion_request}
use eupf.Core.Handlers.Teardown.{delete_association}
use eupf.Core.Handlers.Dispatch.{
  handle, dispatch, datagram, association_setup_request, session_establishment_request, Reaches,
  turn,
}
use eupf.Core.Handlers.Dispatch as Dispatch
use eupf.Core.Invariant.{IsValid}
use eupf.Core.Invariant.Run.{reached-IsValid}
use eupf.Tests.Connections.{
  plane, conf, start, established, establishment, modification, deletion, setup, setup_reply, held,
  holding,
}

-- The session is kept under SEID 2, and a deletion takes it away.
establishment_test : get_session_count established ≡ 1
unfolding handle_session_establishment_request handle_association_setup_request get_session_count
    total lookup insert create_rules for_each create_far Objects.new_far get_next new_id_tracker
    create_qer Objects.new_qer create_pdr Objects.put_pdr_uplink
establishment_test = refl

reached-IsValid_example :
    IsValid 2
      (handle plane kept_order conf
        (datagram (some (session_establishment_request establishment)) "smf")
        (handle plane kept_order conf
          (datagram (some (association_setup_request setup)) "smf")
          start).1).1
reached-IsValid_example = reached-IsValid plane conf start _ 2 refl (omega arith) (
    turn kept_order (datagram (some (session_establishment_request establishment)) "smf")
      (turn kept_order (datagram (some (association_setup_request setup)) "smf") Dispatch.start))

holding-IsValid : IsValid 2 holding
unfolding new_node_association lookup
holding-IsValid = (
  (refl, tt),
  (
    record {
      own_address = refl;
      counted = omega arith;
      keys = (refl, tt);
      entries = ((refl, omega arith), tt);
    },
    tt,
  ),
)

establishment-effect_example :
    find_session "smf" 3
      (handle_session_establishment_request plane kept_order true establishment "smf" holding).1
    ≡ effect plane kept_order true establishment "smf"
        (cp_seid (validate_request establishment.est_node_id establishment.est_cp_fseid))
        (lookup "smf" holding.node_associations)
        (handle_session_establishment_request plane kept_order true establishment "smf" holding).0
        holding
        "smf"
        3
establishment-effect_example =
    establishment-effect plane kept_order true establishment "smf" holding "smf" 3

establishment-keeps_example :
    find_session "smf" 2
      (handle_session_establishment_request plane kept_order true establishment "smf" holding).1
    ≡ some held
unfolding lookup
establishment-keeps_example =
    establishment-keeps plane kept_order true 2 establishment "smf" holding "smf" 2 held
      (omega arith) holding-IsValid refl

establishment-answers_example :
    (s : Session) × (fseid_of
        (handle_session_establishment_request plane kept_order true establishment "smf" holding).0
      ≡ some (s.local_seid, holding.node_addr_v4))
    × (find_session "smf" s.local_seid
          (handle_session_establishment_request plane kept_order true establishment "smf" holding).1
        ≡ some s)
unfolding handle_session_establishment_request lookup insert create_rules for_each create_far
    Objects.new_far get_next new_id_tracker create_qer Objects.new_qer create_pdr
    Objects.put_pdr_uplink
establishment-answers_example =
    establishment-answers plane kept_order true establishment "smf" holding refl

modification-effect_example :
    find_session "smf" 2
      (handle_session_modification_request plane kept_order true modification "smf" established).1
    ≡ then_changed plane kept_order true modification true established
        (find_session "smf" 2 established)
modification-effect_example =
    modification-effect plane kept_order true modification "smf" established "smf" 2

deletion-effect_example :
    find_session "smf" 2
      (handle_session_deletion_request plane kept_order true deletion "smf" established).1
    ≡ (if is_accepted (
            cause_of
              (handle_session_deletion_request plane kept_order true deletion "smf" established).0)
          && true
        then none
        else find_session "smf" 2 established)
deletion-effect_example = deletion-effect plane kept_order true deletion "smf" established "smf" 2

association_setup-sessions_example :
    (find_session "smf" 2 (handle_association_setup_request 5 setup "smf" holding).1
      ≡ find_session "smf" 2 holding)
    × (find_session "smf" 2 (handle_association_setup_response 5 setup_reply "smf" holding).1
        ≡ find_session "smf" 2 holding)
association_setup-sessions_example =
    association_setup-sessions 5 setup setup_reply "smf" holding "smf" 2

delete_association-sessions_example :
    find_session "smf" 2 (delete_association plane kept_order true "smf" holding).1
    ≡ (if true then none else find_session "smf" 2 holding)
unfolding delete_association lookup for_each
delete_association-sessions_example =
    delete_association-sessions plane kept_order true "smf" holding "smf" 2 refl

get_session_count-accepted_example :
    (get_session_count
        (handle_session_establishment_request plane kept_order true establishment "smf" holding).1
      ≡ get_session_count holding
        + counted (
            is_accepted (
              cause_of
                (handle_session_establishment_request plane kept_order true establishment "smf"
                  holding).0)))
    × (get_session_count
            (handle_session_deletion_request plane kept_order true deletion "smf" holding).1
          + counted (
              is_accepted (
                cause_of
                  (handle_session_deletion_request plane kept_order true deletion "smf" holding).0))
        ≡ get_session_count holding)
get_session_count-accepted_example =
    get_session_count-accepted plane kept_order true 2 establishment deletion "smf" holding
      (omega arith) holding-IsValid
