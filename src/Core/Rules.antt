-- ===== src/Core/Rules.antt =====
-- How cmd/core/pfcp_session_handlers.go reads FARs, QERs and URRs: composeFarInfo, updateQer,
-- updateUrr and GetTransportLevelMarking.
pub mod Crashes
use eupf.Base.{ℕ, ◌+◌, ◌*◌, ◌/◌, ◌%◌, ◌^◌, Option, none, some, List, [], ◌∷◌, ◌==◌, if◌then◌else◌}
use eupf.Base.Outcome.{Outcome, ok, err, panic, and_then, unsupported_ie_type, ipv6_not_supported}
use eupf.Base.Outcome.Pure.{◌>>=◌}
use eupf.Ebpf.Types.{Bytes, FarInfo, QerInfo, UrrInfo}
use eupf.Core.Ie.{
  FarIe, QerIe, UrrIe, ChildIe, OuterHeaderCreation, find_ie, type_create_far, type_update_far,
  type_outer_header_creation, type_transport_level_marking,
}

-- binary.LittleEndian.Uint32, which reads four bytes.
unfoldable pub little_endian_uint32 : Bytes → Outcome ℕ
little_endian_uint32 (a ∷ b ∷ c ∷ d ∷ rest) = ok (a + b * 256 + c * 65536 + d * 16777216)
little_endian_uint32 _ = panic

-- `applyAction[0]`.
abbrev pub with_apply_action : Option Bytes → FarInfo → Outcome FarInfo
with_apply_action none info = ok info
with_apply_action (some []) info = panic
with_apply_action (some (a ∷ _)) info = ok (record info { action = a })

abbrev pub with_remote_ip : OuterHeaderCreation → FarInfo → Outcome FarInfo
with_remote_ip o info =
    if o.has_ipv4
    then and_then (little_endian_uint32 o.ohc_ipv4_address)
        (λ ip. ok (record info { remote_ip = ip }))
    else ok info

-- The accessor's error is dropped, and its nil result read.
abbrev pub with_outer_header : Option OuterHeaderCreation → FarInfo → Outcome FarInfo
with_outer_header none info = panic
with_outer_header (some o) info = do
  info' ←
      with_remote_ip o
        (record info { outer_header_creation = o.description / 256 % 256; teid = o.ohc_teid })
  if o.has_ipv6 then err ipv6_not_supported else ok info'

abbrev pub with_outer_header_ie : Option ChildIe → FarInfo → Outcome FarInfo
with_outer_header_ie none info = ok info
with_outer_header_ie (some ie) info = with_outer_header ie.ie_outer_header_creation info

abbrev pub with_forward : Option (List ChildIe) → FarInfo → Outcome FarInfo
with_forward none info = ok info
with_forward (some forward) info =
    with_outer_header_ie (find_ie type_outer_header_creation forward) info

-- GetTransportLevelMarking.
unfoldable pub get_transport_level_marking : FarIe → Option ℕ
unfolding find_ie
get_transport_level_marking far = elim (find_ie type_transport_level_marking far.child_ies) [
  | none ↦ none
  | some ie ↦ ie.ie_transport_level_marking
]

abbrev pub with_marking : Option ℕ → FarInfo → FarInfo
with_marking none info = info
with_marking (some m) info = record info { transport_level_marking = m }

abbrev pub forward_of : FarIe → Outcome (Option (List ChildIe))
forward_of far =
    if far.far_type == type_create_far
    then ok far.forwarding_parameters
    else if far.far_type == type_update_far
    then ok far.update_forwarding_parameters
    else err unsupported_ie_type

unfoldable pub compose_far_info : FarIe → FarInfo → Outcome FarInfo
unfolding find_ie little_endian_uint32 get_transport_level_marking
compose_far_info far far_info = do
  with_action ← with_apply_action far.apply_action far_info
  forward ← forward_of far
  forwarded ← with_forward forward with_action
  ok (with_marking (get_transport_level_marking far) forwarded)

abbrev pub or_kept : Option ℕ → ℕ → ℕ
or_kept none old = old
or_kept (some new) old = new

-- `uint32(rate) * 1000`.
abbrev pub bitrate : Option ℕ → ℕ → ℕ
bitrate none old = old
bitrate (some rate) old = (rate % 2 ^ 32 * 1000) % 2 ^ 32

unfoldable pub update_qer : QerIe → QerInfo → QerInfo
update_qer qer info = record {
  gate_status_ul = or_kept qer.gate_status_ul info.gate_status_ul;
  gate_status_dl = or_kept qer.gate_status_dl info.gate_status_dl;
  qfi = or_kept qer.qfi info.qfi;
  max_bitrate_ul = bitrate qer.mbr_ul info.max_bitrate_ul;
  max_bitrate_dl = bitrate qer.mbr_dl info.max_bitrate_dl;
  start_ul = 0;
  start_dl = 0;
}

-- The body of updateUrr is commented out.
unfoldable pub update_urr : UrrIe → UrrInfo → UrrInfo
update_urr urr info = info
