-- ===== src/Tests/Rest.antt =====
-- Requests to the REST interface.
use eupf.Base.{ℕ, ◌^◌, ◌≡◌, ◌<◌, refl, some, [], ◌∷◌, arith, ◌==◌, if◌then◌else◌, length}
use eupf.Base.Text.Digits.{digits}
use eupf.Base.Text.{codes}
use eupf.Base.MapOrder.{kept_order}
use eupf.Ebpf.Types.{FarInfo, QerInfo}
use eupf.Core.Connection.{get_session_count}
use eupf.Rest.{answers, fails}
use eupf.Rest.Tables.{
  FarMapElement, QerMapElement, get_far_value, set_far_value, get_qer_value, set_qer_value,
}
use eupf.Rest.Tables.RoundTrip.{get_value-set_value}
use eupf.Rest.Sessions.{get_all_sessions, filter_sessions_by_teid, filter_sessions_by_ip}
use eupf.Rest.Sessions.Search.{Finds, with_teid, with_ipv4, filter_sessions-Finds}
use eupf.Ebpf.Objects.{BpfObjects}
use eupf.Core.Session.{zero_spdr_info}
use eupf.Core.Connection.{PfcpConnection, new_node_association}
use eupf.Tests.Libraries.{libraries, objects, array-IsArray}
use eupf.Tests.Connections.{start, held}

abbrev far : FarMapElement
far = record {
  far_element_id = 2;
  element_action = 2;
  element_outer_header_creation = 1;
  element_teid = 7;
  element_remote_ip = 9;
  element_transport_level_marking = 0;
}

abbrev qer : QerMapElement
qer = record {
  qer_element_id = 3;
  element_gate_status_ul = 0;
  element_gate_status_dl = 0;
  element_qfi = 5;
  element_max_bitrate_ul = 1000;
  element_max_bitrate_dl = 2000;
}

get_value-set_value_example :
    ((set_far_value libraries (some far) objects).0 ≡ answers 201 far)
    × ((j : ℕ)
        → j < 2 ^ 32
        → get_far_value libraries (digits 10 j) (set_far_value libraries (some far) objects).1
          ≡ (if 2 == j then answers 200 far else get_far_value libraries (digits 10 j) objects))
    × ((set_qer_value libraries (some qer) objects).0 ≡ answers 201 qer)
    × ((j : ℕ)
        → j < 2 ^ 32
        → get_qer_value libraries (digits 10 j) (set_qer_value libraries (some qer) objects).1
          ≡ (if 3 == j then answers 200 qer else get_qer_value libraries (digits 10 j) objects))
get_value-set_value_example =
    get_value-set_value libraries 4 (array-IsArray FarInfo) (array-IsArray QerInfo) far qer objects
      (omega arith) (omega arith) (omega arith)

no_number : get_far_value libraries (codes "x1") objects ≡ fails 400
unfolding get_far_value
no_number = refl

abbrev holding_pdr : PfcpConnection (BpfObjects libraries)
holding_pdr = record start {
  node_associations =
      (
        "smf",
        record (new_node_association "smf" "smf") {
          next_session_id = 3;
          sessions =
              (2, held)
              ∷ (3, record held { pdrs = (1, record zero_spdr_info { pdr_id = 1; teid = 7 }) ∷ [] })
              ∷ [];
        },
      )
      ∷ [];
}

filter_test :
    filter_sessions_by_teid kept_order holding_pdr.node_associations 7
    ≡ some (record held { pdrs = (1, record zero_spdr_info { pdr_id = 1; teid = 7 }) ∷ [] })
unfolding filter_sessions_by_teid new_node_association
filter_test = refl

filter_sessions-Finds_example :
    (length (get_all_sessions kept_order holding_pdr.node_associations)
      ≡ get_session_count holding_pdr)
    × Finds
        (with_teid 7)
        (get_all_sessions kept_order holding_pdr.node_associations)
        (filter_sessions_by_teid kept_order holding_pdr.node_associations 7)
    × Finds
        (with_ipv4 (10 ∷ 60 ∷ 0 ∷ 1 ∷ []))
        (get_all_sessions kept_order holding_pdr.node_associations)
        (filter_sessions_by_ip kept_order holding_pdr.node_associations (10 ∷ 60 ∷ 0 ∷ 1 ∷ []))
filter_sessions-Finds_example =
    filter_sessions-Finds kept_order kept_order kept_order holding_pdr 7 (10 ∷ 60 ∷ 0 ∷ 1 ∷ [])
