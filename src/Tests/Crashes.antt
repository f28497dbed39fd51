-- ===== src/Tests/Crashes.antt =====
-- Requests with a PDI that has no Source Interface.
use eupf.Base.{◌≡◌, refl, true, some, [], ◌∷◌, nat_eq, string_eq}
use eupf.Base.Outcome.{panic}
use eupf.Base.Table.{lookup, insert}
use eupf.Base.MapOrder.{kept_order}
use eupf.Core.Ie.{PdrIe, find_ie}
use eupf.Core.Display.{display_far, shown_number, shown_bytes}
use eupf.Core.Connection.{NodeAssociation, new_node_association, new_local_seid, put_association}
use eupf.Core.Handlers.Establishment.{
  EstablishmentRequest, handle_session_establishment_request, validate_request,
}
use eupf.Core.Handlers.Modification.{
  ModificationRequest, handle_session_modification_request, with_cp_fseid,
}
use eupf.Core.Handlers.Effects.Crashed.{establishment-crash, modification-crash}
use eupf.Tests.Connections.{
  plane, establishment, modification, no_rules, holding, held, far, uplink,
}

display_far_test :
    display_far "Create" (far 7)
    ≡ record { tab = 1; verb = "Create"; label = "FAR ID"; values = shown_number 7 ∷ [] }
      ∷ record {
        tab = 2;
        verb = "";
        label = "Apply Action";
        values = shown_bytes (2 ∷ 0 ∷ []) ∷ [];
      }
      ∷ []
unfolding display_far find_ie
display_far_test = refl

abbrev sourceless : PdrIe
sourceless = record (uplink 5 1) { pdi = some [] }

abbrev bad_establishment : EstablishmentRequest
bad_establishment = record establishment {
  est_rules = record no_rules { create_pdrs = uplink 1 1 ∷ sourceless ∷ [] };
}

abbrev bad_modification : ModificationRequest
bad_modification = record modification {
  mod_cp_fseid = some (some 101);
  mod_rules = record no_rules { update_pdrs = sourceless ∷ [] };
}

abbrev peer : NodeAssociation
peer = record (new_node_association "smf" "smf") { next_session_id = 2; sessions = (2, held) ∷ [] }

establishment-crash_example :
    handle_session_establishment_request plane kept_order true bad_establishment "smf" holding
    ≡ (panic, put_association "smf" (new_local_seid peer).1 holding)
unfolding validate_request lookup new_node_association
establishment-crash_example =
    establishment-crash plane kept_order true bad_establishment "smf" holding peer 100 refl refl
      refl

modification-crash_example :
    handle_session_modification_request plane kept_order true bad_modification "smf" holding ≡ (
      panic,
      put_association "smf"
          (record peer {
            sessions = insert 2 (with_cp_fseid (some (some 101)) held) ((2, held) ∷ []);
          })
          holding,
    )
unfolding lookup new_node_association
modification-crash_example =
    modification-crash plane kept_order true bad_modification "smf" holding peer held refl refl refl
