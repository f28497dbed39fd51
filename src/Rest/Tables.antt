-- ===== src/Rest/Tables.antt =====
-- cmd/api/rest/far_map.go and qer_map.go, with ListQerMapContents of cmd/ebpf/utils.go: the FAR and
-- QER tables as the REST interface reads and writes them.
pub mod RoundTrip
use eupf.Base.{ℕ, zero, suc, ◌+◌, Bool, true, false, Option, none, some, List, [], ◌∷◌}
use eupf.Base.Outcome.{Outcome, ok, err, panic}
use eupf.Base.Text.{Text}
use eupf.Ebpf.Types.{FarInfo, QerInfo}
use eupf.Ebpf.Objects.{Libraries, BpfObjects}
use eupf.Rest.{HttpReply, answers, fails, atoi, to_uint32}

pub record FarMapElement : Type 0 where
  pub far_element_id : ℕ
  pub element_action : ℕ
  pub element_outer_header_creation : ℕ
  pub element_teid : ℕ
  pub element_remote_ip : ℕ
  pub element_transport_level_marking : ℕ

pub record QerMapElement : Type 0 where
  pub qer_element_id : ℕ
  pub element_gate_status_ul : ℕ
  pub element_gate_status_dl : ℕ
  pub element_qfi : ℕ
  pub element_max_bitrate_ul : ℕ
  pub element_max_bitrate_dl : ℕ

abbrev pub far_element : ℕ → FarInfo → FarMapElement
far_element id value = record {
  far_element_id = id;
  element_action = value.action;
  element_outer_header_creation = value.outer_header_creation;
  element_teid = value.teid;
  element_remote_ip = value.remote_ip;
  element_transport_level_marking = value.transport_level_marking;
}

abbrev pub far_of_element : FarMapElement → FarInfo
far_of_element e = record {
  action = e.element_action;
  outer_header_creation = e.element_outer_header_creation;
  teid = e.element_teid;
  remote_ip = e.element_remote_ip;
  transport_level_marking = e.element_transport_level_marking;
}

abbrev pub qer_element : ℕ → QerInfo → QerMapElement
qer_element id value = record {
  qer_element_id = id;
  element_gate_status_ul = value.gate_status_ul;
  element_gate_status_dl = value.gate_status_dl;
  element_qfi = value.qfi;
  element_max_bitrate_ul = value.max_bitrate_ul;
  element_max_bitrate_dl = value.max_bitrate_dl;
}

abbrev pub qer_of_element : QerMapElement → QerInfo
qer_of_element e = record {
  gate_status_ul = e.element_gate_status_ul;
  gate_status_dl = e.element_gate_status_dl;
  qfi = e.element_qfi;
  max_bitrate_ul = e.element_max_bitrate_ul;
  max_bitrate_dl = e.element_max_bitrate_dl;
  start_ul = 0;
  start_dl = 0;
}

module _ (lib : Libraries) where
  open lib use {far_maps, qer_maps}

  abbrev pub found_far : ℕ → Option FarInfo → HttpReply FarMapElement
  found_far id none = fails 404
  found_far id (some value) = answers 200 (far_element id value)

  unfoldable pub get_far_value : Text → BpfObjects lib → HttpReply FarMapElement
  unfolding atoi
  get_far_value id_param s = elim (atoi id_param) [
    | none ↦ fails 400
    | some id ↦ found_far (to_uint32 id) (far_maps.map_lookup (to_uint32 id) s.far_map)
  ]

  abbrev pub written : {A M : Type 0} → A → Outcome (Unit {0}) × M → HttpReply A
  written a (ok _, m) = answers 201 a
  written a (err e, m) = fails 500
  written a (panic, m) = fails 500

  unfoldable pub set_far_value :
      Option FarMapElement → BpfObjects lib → HttpReply FarMapElement × BpfObjects lib
  set_far_value none s = (fails 400, s)
  set_far_value (some e) s =
      let put = far_maps.map_put e.far_element_id (far_of_element e) s.far_map in
      (written e put, record s { far_map = put.1 })

  abbrev pub found_qer : ℕ → Option QerInfo → HttpReply QerMapElement
  found_qer id none = fails 404
  found_qer id (some value) = answers 200 (qer_element id value)

  unfoldable pub get_qer_value : Text → BpfObjects lib → HttpReply QerMapElement
  unfolding atoi
  get_qer_value id_param s = elim (atoi id_param) [
    | none ↦ fails 400
    | some id ↦ found_qer (to_uint32 id) (qer_maps.map_lookup (to_uint32 id) s.qer_map)
  ]

  unfoldable pub set_qer_value :
      Option QerMapElement → BpfObjects lib → HttpReply QerMapElement × BpfObjects lib
  set_qer_value none s = (fails 400, s)
  set_qer_value (some e) s =
      let put = qer_maps.map_put e.qer_element_id (qer_of_element e) s.qer_map in
      (written e put, record s { qer_map = put.1 })

  -- ListQerMapContents from index `i` on, with `n` entries left; the map is an array.
  unfoldable pub list_qer_map_contents : ℕ → ℕ → qer_maps.Map → Option (List QerMapElement)
  list_qer_map_contents zero i m = some []
  list_qer_map_contents (suc n) i m = elim (qer_maps.map_lookup i m) [
    | none ↦ none
    | some value ↦ elim (list_qer_map_contents n (i + 1) m) [
      | none ↦ none
      | some elements ↦ some (qer_element i value ∷ elements)
    ]
  ]

  -- listQerMapContent, for a map of `max_entries`.
  unfoldable pub list_qer_map_content : ℕ → BpfObjects lib → HttpReply (List QerMapElement)
  unfolding list_qer_map_contents
  list_qer_map_content max_entries s = elim (list_qer_map_contents max_entries 0 s.qer_map) [
    | none ↦ fails 500
    | some elements ↦ answers 200 elements
  ]
