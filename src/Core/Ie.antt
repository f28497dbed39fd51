-- ===== src/Core/Ie.antt =====
-- PFCP information elements. Encoding and decoding is the library go-pfcp's: an IE is given by the
-- answers of the accessors that cmd/core calls on it, none standing for an error, and nothing is
-- assumed of them. The type numbers are those of 3GPP TS 29.244, table 8.1.2-1.
use eupf.Base.{ℕ, Bool, Option, none, some, List, [], ◌∷◌, ◌==◌, if◌then◌else◌}
use eupf.Base.Text.{Text}
use eupf.Ebpf.Types.{Bytes}

abbrev pub type_create_pdr : ℕ
type_create_pdr = 1

abbrev pub type_update_pdr : ℕ
type_update_pdr = 9

abbrev pub type_create_far : ℕ
type_create_far = 3

abbrev pub type_update_far : ℕ
type_update_far = 10

abbrev pub type_source_interface : ℕ
type_source_interface = 20

abbrev pub type_fteid : ℕ
type_fteid = 21

abbrev pub type_sdf_filter : ℕ
type_sdf_filter = 23

abbrev pub type_transport_level_marking : ℕ
type_transport_level_marking = 30

abbrev pub type_urr_id : ℕ
type_urr_id = 81

abbrev pub type_outer_header_creation : ℕ
type_outer_header_creation = 84

abbrev pub type_ue_ip_address : ℕ
type_ue_ip_address = 93

abbrev pub type_qer_id : ℕ
type_qer_id = 109

-- *OuterHeaderCreationFields; `description` is a uint16.
pub record OuterHeaderCreation : Type 0 where
  pub description : ℕ
  pub ohc_teid : ℕ
  pub ohc_ipv4_address : Bytes
  pub has_ipv4 : Bool
  pub has_ipv6 : Bool

-- *FTEIDFields.
pub record Fteid : Type 0 where
  pub fteid_teid : ℕ
  pub has_ch : Bool
  pub has_ch_id : Bool
  pub choose_id : ℕ
  pub fteid_ipv4_address : Bytes
  pub fteid_ipv6_address : Bytes

-- *UEIPAddressFields.
pub record UeIpAddress : Type 0 where
  pub flags : ℕ
  pub ue_ipv4_address : Option Bytes
  pub ue_ipv6_address : Option Bytes

-- *RedirectInformationFields.
pub record RedirectInformation : Type 0 where
  pub redirect_server_address : Text
  pub other_redirect_server_address : Text

-- *HeaderEnrichmentFields.
pub record HeaderEnrichment : Type 0 where
  pub header_field_name : Text
  pub header_field_value : Text

-- A child of a grouped IE: its type and the answers of the accessors used on children.
pub record ChildIe : Type 0 where
  pub ie_type : ℕ
  pub ie_outer_header_creation : Option OuterHeaderCreation
  pub ie_transport_level_marking : Option ℕ
  pub ie_fteid : Option Fteid
  pub ie_ue_ip_address : Option UeIpAddress
  pub ie_urr_id : Option ℕ
  pub ie_qer_id : Option ℕ
  pub ie_source_interface : Option ℕ
  pub ie_sdf_filter : Option Text
  pub ie_network_instance : Option Text
  pub ie_redirect_information : Option RedirectInformation
  pub ie_header_enrichment : Option HeaderEnrichment

pub record FarIe : Type 0 where
  pub far_type : ℕ
  pub far_id : Option ℕ
  pub apply_action : Option Bytes
  pub forwarding_parameters : Option (List ChildIe)
  pub update_forwarding_parameters : Option (List ChildIe)
  pub child_ies : List ChildIe
  pub duplicating_parameters : Option (List ChildIe)
  pub far_bar_id : Option ℕ

pub record QerIe : Type 0 where
  pub qer_id : Option ℕ
  pub gate_status_dl : Option ℕ
  pub gate_status_ul : Option ℕ
  pub mbr_dl : Option ℕ
  pub mbr_ul : Option ℕ
  pub qfi : Option ℕ

-- *VolumeThresholdFields.
pub record VolumeThreshold : Type 0 where
  pub threshold_flags : ℕ
  pub total_threshold : ℕ
  pub uplink_threshold : ℕ
  pub downlink_threshold : ℕ

-- Durations and points in time are the texts that they print as.
pub record UrrIe : Type 0 where
  pub urr_id : Option ℕ
  pub measurement_method : Option ℕ
  pub volume_threshold : Option VolumeThreshold
  pub time_threshold : Option ℕ
  pub monitoring_time : Option Text

pub record BarIe : Type 0 where
  pub bar_id : Option ℕ
  pub downlink_data_notification_delay : Option Text
  pub suggested_buffering_packets_count : Option ℕ
  pub mt_edt_control_information : Option ℕ

-- `sdf_filter` is the flow description.
pub record PdrIe : Type 0 where
  pub pdr_type : ℕ
  pub ie_pdr_id : Option ℕ
  pub outer_header_removal : Option ℕ
  pub pdr_far_id : Option ℕ
  pub pdr_qer_id : Option ℕ
  pub create_pdr : Option (List ChildIe)
  pub update_pdr : Option (List ChildIe)
  pub pdi : Option (List ChildIe)
  pub sdf_filter : Option Text
  pub pdr_urr_id : Option ℕ
  pub pdr_bar_id : Option ℕ
  pub pdr_child_ies : List ChildIe

-- The IEs of a request that create, update or remove rules.
pub record RuleIes : Type 0 where
  pub create_fars : List FarIe
  pub update_fars : List FarIe
  pub remove_fars : List FarIe
  pub create_qers : List QerIe
  pub update_qers : List QerIe
  pub remove_qers : List QerIe
  pub create_urrs : List UrrIe
  pub update_urrs : List UrrIe
  pub remove_urrs : List UrrIe
  pub create_pdrs : List PdrIe
  pub update_pdrs : List PdrIe
  pub remove_pdrs : List PdrIe
  pub create_bar : Option BarIe
  pub update_bar : Option BarIe
  pub remove_bar : Option BarIe

-- findIEindex with the access at the index: the first IE of the type.
unfoldable pub find_ie : ℕ → List ChildIe → Option ChildIe
find_ie ie_type [] = none
find_ie ie_type (x ∷ xs) = if x.ie_type == ie_type then some x else find_ie ie_type xs

-- `v, _ := accessor()`: zero on an error.
abbrev pub or_zero : Option ℕ → ℕ
or_zero none = 0
or_zero (some n) = n
