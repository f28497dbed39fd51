-- ===== src/Config.antt =====
-- cmd/config/config.go: the configuration and Validate. Reading it from flags, the environment and
-- a file is viper's, and the `validate` tags are the validator's, which is a parameter.
use eupf.Base.{ℕ, ◌*◌, ◌%◌, ◌^◌, Bool, Option, none, some, List, String, ◌==◌, if◌then◌else◌}
use eupf.Base.Outcome.{ok, err, Error, M}
use eupf.Base.Text.{Text}

-- The numbers are uint32. The addresses that the code parses itself are lists of characters.
pub record UpfConfig : Type 0 where
  pub interface_name : List String
  pub xdp_attach_mode : String
  pub api_address : String
  pub pfcp_address : String
  pub pfcp_node_id : String
  pub pfcp_remote_node : List String
  pub association_setup_timeout : ℕ
  pub metrics_address : String
  pub n3_address : Text
  pub n9_address : Text
  pub gtp_peer : List String
  pub gtp_echo_interval : ℕ
  pub qer_map_size : ℕ
  pub far_map_size : ℕ
  pub urr_map_size : ℕ
  pub pdr_map_size : ℕ
  pub max_sessions : ℕ
  pub heartbeat_retries : ℕ
  pub heartbeat_interval : ℕ
  pub heartbeat_timeout : ℕ
  pub logging_level : String
  pub ueip_pool : String
  pub fteid_pool : ℕ
  pub feature_ueip : Bool
  pub feature_ftup : Bool

abbrev pub twice : ℕ → ℕ
twice n = (n * 2) % 2 ^ 32

abbrev pub or_default : ℕ → ℕ → ℕ
or_default size default_size = if size == 0 then default_size else size

abbrev pub with_defaults : UpfConfig → UpfConfig
with_defaults c = record c {
  fteid_pool = if c.feature_ftup then c.fteid_pool else 0;
  ueip_pool = if c.feature_ueip then c.ueip_pool else "";
  pdr_map_size = or_default c.pdr_map_size (twice c.max_sessions);
  far_map_size = or_default c.far_map_size (twice c.max_sessions);
  qer_map_size = or_default c.qer_map_size c.max_sessions;
  urr_map_size = or_default c.urr_map_size (twice c.max_sessions);
}

-- Validate; `validate_struct` is validator.New().Struct.
unfoldable pub validate : (UpfConfig → Option Error) → M UpfConfig (Unit {0})
validate validate_struct c = elim (validate_struct c) [
  | some e ↦ (err e, c)
  | none ↦ (ok tt, with_defaults c)
]
