-- ===== src/Core/Display.antt =====
-- The messages that cmd/core/display_utils.go writes to the log: the lines with what fmt is given
-- for them. How fmt prints a value is not modelled. A panic while a message is put together is one
-- of the handler that prints it.
pub mod Sources
use eupf.Base.{
  ℕ, ◌/◌, ◌%◌, ◌^◌, String, Option, none, some, List, [], ◌∷◌, ◌++◌, ◌==◌, if◌then◌else◌,
}
use eupf.Base.Outcome.{Outcome, ok, panic, and_then}
use eupf.Base.Outcome.Pure.{◌>>=◌}
use eupf.Base.Text.{Text}
use eupf.Ebpf.Types.{Bytes}
use eupf.Core.Ie.{
  ChildIe, FarIe, QerIe, UrrIe, PdrIe, BarIe, RuleIes, Fteid, UeIpAddress, OuterHeaderCreation,
  VolumeThreshold, RedirectInformation, HeaderEnrichment, find_ie, or_zero, type_source_interface,
  type_fteid, type_ue_ip_address, type_sdf_filter, type_qer_id,
}
use eupf.Core.Rules.{get_transport_level_marking}

-- What fmt.Sprintf prints in a line; `shown_hex` is %x, the others are %d, %s and %+v.
pub data Value : Type 0 where
  shown_number shown_hex : ℕ → Value
  shown_string : String → Value
  shown_text : Text → Value
  shown_bytes : Bytes → Value
  shown_header : OuterHeaderCreation → Value
  shown_threshold : VolumeThreshold → Value
  shown_ies : List ChildIe → Value

-- `verb` is what the caller has written before the line: Create, Update or Remove.
pub record Line : Type 0 where
  pub tab : ℕ
  pub verb : String
  pub label : String
  pub values : List Value

abbrev pub Lines : Type 0
Lines = List Line

abbrev pub write_line_tabbed : String → List Value → ℕ → Lines
write_line_tabbed label values tab =
    record { tab = tab; verb = ""; label = label; values = values } ∷ []

-- The line of an accessor, unless that gives an error.
abbrev pub write_answer : {A : Type 0} → String → (A → Value) → Option A → ℕ → Lines
write_answer label show none tab = []
write_answer label show (some a) tab = write_line_tabbed label (show a ∷ []) tab

-- The first line of a rule, with its id, 0 if that is missing.
abbrev pub headline : String → String → Option ℕ → Lines
headline verb label id =
    record { tab = 1; verb = verb; label = label; values = shown_number (or_zero id) ∷ [] } ∷ []

abbrev pub display_each : {A : Type 0} → (A → Lines) → List A → Lines
display_each display [] = []
display_each display (x ∷ xs) = display x ++ display_each display xs

abbrev pub display_maybe : {A : Type 0} → (A → Lines) → Option A → Lines
display_maybe display none = []
display_maybe display (some x) = display x

abbrev bar_lines : BarIe → Lines
bar_lines bar =
    write_answer "Downlink Data Notification Delay" shown_text bar.downlink_data_notification_delay
      2
    ++ write_answer "Suggested Buffering Packets Count" shown_number
        bar.suggested_buffering_packets_count 2
    ++ write_answer "MT EDI" shown_number bar.mt_edt_control_information 2

unfoldable pub display_bar : String → BarIe → Lines
display_bar verb bar = headline verb "BAR ID" bar.bar_id ++ bar_lines bar

unfoldable pub display_urr : String → UrrIe → Lines
display_urr verb urr =
    headline verb "URR ID" urr.urr_id
    ++ write_answer "Measurement Method" shown_number urr.measurement_method 2
    ++ write_answer "Volume Threshold" shown_threshold urr.volume_threshold 2
    ++ write_answer "Time Threshold" shown_number urr.time_threshold 2
    ++ write_answer "Monitoring Time" shown_text urr.monitoring_time 2

unfoldable pub display_qer : String → QerIe → Lines
display_qer verb qer =
    headline verb "QER ID" qer.qer_id
    ++ write_answer "Gate Status DL" shown_number qer.gate_status_dl 2
    ++ write_answer "Gate Status UL" shown_number qer.gate_status_ul 2
    ++ write_answer "Max Bitrate DL" (λ rate. shown_number (rate % 2 ^ 32)) qer.mbr_dl 2
    ++ write_answer "Max Bitrate UL" (λ rate. shown_number (rate % 2 ^ 32)) qer.mbr_ul 2
    ++ write_answer "QFI" shown_number qer.qfi 2

abbrev redirect_lines : RedirectInformation → Lines
redirect_lines r =
    write_line_tabbed "Redirect Information, server address"
      (shown_text r.redirect_server_address ∷ []) 3
    ++ write_line_tabbed "Redirect Information, other server address"
        (shown_text r.other_redirect_server_address ∷ []) 3

abbrev enrichment_lines : HeaderEnrichment → Lines
enrichment_lines h =
    write_line_tabbed "Header Enrichment"
      (shown_text h.header_field_name ∷ shown_text h.header_field_value ∷ []) 3

abbrev pub parameter_lines : ChildIe → Lines
parameter_lines x =
    write_answer "Network Instance" shown_text x.ie_network_instance 3
    ++ write_answer "Outer Header Creation" shown_header x.ie_outer_header_creation 3
    ++ display_maybe redirect_lines x.ie_redirect_information
    ++ display_maybe enrichment_lines x.ie_header_enrichment

abbrev pub forwarding_lines : String → List ChildIe → Lines
forwarding_lines label xs = write_line_tabbed label [] 2 ++ display_each parameter_lines xs

-- The DSCP and the mask are the two bytes of the marking, high byte first.
abbrev pub marking_lines : ℕ → Lines
marking_lines marking =
    write_line_tabbed "Transport Level Marking" (shown_number marking ∷ []) 2
    ++ write_line_tabbed "DSCP" (shown_hex (marking / 256 % 256) ∷ []) 3
    ++ write_line_tabbed "ToS or Traffic Class mask" (shown_hex (marking % 256) ∷ []) 3

unfoldable pub display_far : String → FarIe → Lines
unfolding get_transport_level_marking
display_far verb far =
    headline verb "FAR ID" far.far_id
    ++ write_answer "Apply Action" shown_bytes far.apply_action 2
    ++ display_maybe (forwarding_lines "Forwarding Parameters") far.forwarding_parameters
    ++ display_maybe (forwarding_lines "Update forwarding Parameters")
        far.update_forwarding_parameters
    ++ write_answer "Duplicating Parameters" shown_ies far.duplicating_parameters 2
    ++ write_answer "BAR ID" shown_number far.far_bar_id 2
    ++ display_maybe marking_lines (get_transport_level_marking far)

abbrev pub qer_line : ChildIe → Lines
qer_line x =
    if x.ie_type == type_qer_id then write_answer "QER ID" shown_number x.ie_qer_id 2 else []

abbrev fteid_lines : Fteid → Lines
fteid_lines f =
    write_line_tabbed "TEID" (shown_number f.fteid_teid ∷ []) 2
    ++ write_line_tabbed "Ipv4" (shown_bytes f.fteid_ipv4_address ∷ []) 2
    ++ write_line_tabbed "Ipv6" (shown_bytes f.fteid_ipv6_address ∷ []) 2

abbrev ue_ip_lines : UeIpAddress → Lines
ue_ip_lines u =
    write_answer "UE IPv4 Address" shown_bytes u.ue_ipv4_address 2
    ++ write_answer "UE IPv6 Address" shown_bytes u.ue_ipv6_address 2

-- A PDI without a Source Interface: the index is -1, and the access panics.
abbrev pub source_lines : Option ChildIe → Outcome Lines
source_lines none = panic
source_lines (some x) =
    ok (write_line_tabbed "Source Interface" (shown_number (or_zero x.ie_source_interface) ∷ []) 2)

unfoldable pub display_pdi : List ChildIe → Outcome Lines
unfolding find_ie
display_pdi pdi = do
  source ← source_lines (find_ie type_source_interface pdi)
  ok (
      source
      ++ display_maybe (λ x. display_maybe fteid_lines x.ie_fteid) (find_ie type_fteid pdi)
      ++ display_maybe (λ x. display_maybe ue_ip_lines x.ie_ue_ip_address)
          (find_ie type_ue_ip_address pdi)
      ++ display_maybe (λ x. write_answer "SDF Filter" shown_text x.ie_sdf_filter 2)
          (find_ie type_sdf_filter pdi))

abbrev pub pdi_lines : Option (List ChildIe) → Outcome Lines
pdi_lines none = ok []
pdi_lines (some pdi) = display_pdi pdi

unfoldable pub display_pdr : String → PdrIe → Outcome Lines
unfolding display_pdi
display_pdr verb pdr = do
  pdi ← pdi_lines pdr.pdi
  ok (
      headline verb "PDR ID" pdr.ie_pdr_id
      ++ write_answer "Outer Header Removal" shown_number pdr.outer_header_removal 2
      ++ write_answer "FAR ID" shown_number pdr.pdr_far_id 2
      ++ display_each qer_line pdr.pdr_child_ies
      ++ write_answer "URR ID" shown_number pdr.pdr_urr_id 2
      ++ write_answer "BAR ID" shown_number pdr.pdr_bar_id 2
      ++ pdi)

unfoldable pub display_pdrs : String → List PdrIe → Outcome Lines
unfolding display_pdr
display_pdrs verb [] = ok []
display_pdrs verb (pdr ∷ pdrs) = do
  lines ← display_pdr verb pdr
  rest ← display_pdrs verb pdrs
  ok (lines ++ rest)

-- The rules of a request that create, update or remove; a missing BAR is not shown.
abbrev rule_lines : String → List FarIe → List QerIe → List UrrIe → Lines
rule_lines verb fars qers urrs =
    display_each (display_far verb) fars
    ++ display_each (display_qer verb) qers
    ++ display_each (display_urr verb) urrs

unfoldable pub print_session_establishment_request : RuleIes → Outcome Lines
unfolding display_pdrs display_far display_qer display_urr display_bar
print_session_establishment_request r = do
  pdrs ← display_pdrs "Create" r.create_pdrs
  ok (
      write_line_tabbed "Session Establishment Request:" [] 0
      ++ pdrs
      ++ rule_lines "Create" r.create_fars r.create_qers r.create_urrs
      ++ display_maybe (display_bar "Create") r.create_bar)

abbrev updated_bar_lines : BarIe → Lines
updated_bar_lines bar =
    write_line_tabbed "Update BAR:" [] 1
    ++ write_answer "BAR ID" shown_number bar.bar_id 2
    ++ bar_lines bar

abbrev removed_bar_lines : BarIe → Lines
removed_bar_lines bar =
    write_line_tabbed "Remove BAR:" [] 1 ++ write_answer "BAR ID" shown_number bar.bar_id 2

unfoldable pub print_session_modification_request : RuleIes → Outcome Lines
unfolding display_pdrs display_far display_qer display_urr display_bar
print_session_modification_request r = do
  created ← display_pdrs "Create" r.create_pdrs
  updated ← display_pdrs "Update" r.update_pdrs
  removed ← display_pdrs "Remove" r.remove_pdrs
  ok (
      write_line_tabbed "Session Modification Request:" [] 0
      ++ created
      ++ rule_lines "Create" r.create_fars r.create_qers r.create_urrs
      ++ display_maybe (display_bar "Create") r.create_bar
      ++ updated
      ++ rule_lines "Update" r.update_fars r.update_qers r.update_urrs
      ++ display_maybe updated_bar_lines r.update_bar
      ++ removed
      ++ rule_lines "Remove" r.remove_fars r.remove_qers r.remove_urrs
      ++ display_maybe removed_bar_lines r.remove_bar)
