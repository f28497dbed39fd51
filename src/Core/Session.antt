-- ===== src/Core/Session.antt =====
-- cmd/core/session.go: the rules of a PFCP session under the control plane's ids. A method on
-- *Session returns the changed session; m[k] of a missing key is the zero value.
use eupf.Base.{ℕ, Bool, false, Option, none, [], nat_eq}
use eupf.Base.Table.{Table, insert, remove, get_or}
use eupf.Ebpf.Types.{
  Bytes, PdrInfo, FarInfo, QerInfo, UrrInfo, zero_pdr_info, zero_far_info, zero_qer_info,
  zero_urr_info,
}

pub record SpdrInfo : Type 0 where
  pub pdr_id : ℕ
  pub pdr_info : PdrInfo
  pub teid : ℕ
  pub ipv4 : Option Bytes
  pub ipv6 : Option Bytes
  pub allocated : Bool

abbrev pub zero_spdr_info : SpdrInfo
zero_spdr_info = record {
  pdr_id = 0;
  pdr_info = zero_pdr_info;
  teid = 0;
  ipv4 = none;
  ipv6 = none;
  allocated = false;
}

pub record SfarInfo : Type 0 where
  pub far_info : FarInfo
  pub far_global_id : ℕ

abbrev pub zero_sfar_info : SfarInfo
zero_sfar_info = record { far_info = zero_far_info; far_global_id = 0 }

pub record SqerInfo : Type 0 where
  pub qer_info : QerInfo
  pub qer_global_id : ℕ

abbrev pub zero_sqer_info : SqerInfo
zero_sqer_info = record { qer_info = zero_qer_info; qer_global_id = 0 }

pub record SurrInfo : Type 0 where
  pub urr_info : UrrInfo
  pub urr_global_id : ℕ
  pub report_seq_number : ℕ

abbrev pub zero_surr_info : SurrInfo
zero_surr_info = record { urr_info = zero_urr_info; urr_global_id = 0; report_seq_number = 0 }

pub record Session : Type 0 where
  pub local_seid : ℕ
  pub remote_seid : ℕ
  pub pdrs : Table ℕ SpdrInfo
  pub fars : Table ℕ SfarInfo
  pub qers : Table ℕ SqerInfo
  pub urrs : Table ℕ SurrInfo

unfoldable pub new_session : ℕ → ℕ → Session
new_session local_seid remote_seid = record {
  local_seid = local_seid;
  remote_seid = remote_seid;
  pdrs = [];
  fars = [];
  qers = [];
  urrs = [];
}

unfoldable pub new_far : ℕ → ℕ → FarInfo → Session → Session
new_far id internal_id info s = record s {
  fars = insert id (record { far_info = info; far_global_id = internal_id }) s.fars;
}

unfoldable pub get_far : ℕ → Session → SfarInfo
get_far id s = get_or zero_sfar_info id s.fars

unfoldable pub update_far : ℕ → FarInfo → Session → Session
unfolding get_far
update_far id info s = record s {
  fars = insert id (record (get_far id s) { far_info = info }) s.fars;
}

unfoldable pub remove_far : ℕ → Session → SfarInfo × Session
unfolding get_far
remove_far id s = (get_far id s, record s { fars = remove id s.fars })

unfoldable pub new_qer : ℕ → ℕ → QerInfo → Session → Session
new_qer id internal_id info s = record s {
  qers = insert id (record { qer_info = info; qer_global_id = internal_id }) s.qers;
}

unfoldable pub get_qer : ℕ → Session → SqerInfo
get_qer id s = get_or zero_sqer_info id s.qers

unfoldable pub update_qer : ℕ → QerInfo → Session → Session
unfolding get_qer
update_qer id info s = record s {
  qers = insert id (record (get_qer id s) { qer_info = info }) s.qers;
}

unfoldable pub remove_qer : ℕ → Session → SqerInfo × Session
unfolding get_qer
remove_qer id s = (get_qer id s, record s { qers = remove id s.qers })

-- The sequence number of the reports starts at 0.
unfoldable pub new_urr : ℕ → ℕ → UrrInfo → Session → Session
new_urr id internal_id info s = record s {
  urrs =
      insert id (record { urr_info = info; urr_global_id = internal_id; report_seq_number = 0 })
        s.urrs;
}

unfoldable pub get_urr : ℕ → Session → SurrInfo
get_urr id s = get_or zero_surr_info id s.urrs

unfoldable pub update_urr : ℕ → UrrInfo → Session → Session
unfolding get_urr
update_urr id info s = record s {
  urrs = insert id (record (get_urr id s) { urr_info = info }) s.urrs;
}

unfoldable pub remove_urr : ℕ → Session → SurrInfo × Session
unfolding get_urr
remove_urr id s = (get_urr id s, record s { urrs = remove id s.urrs })

unfoldable pub put_pdr : ℕ → SpdrInfo → Session → Session
put_pdr id info s = record s { pdrs = insert id info s.pdrs }

unfoldable pub get_pdr : ℕ → Session → SpdrInfo
get_pdr id s = get_or zero_spdr_info id s.pdrs

unfoldable pub remove_pdr : ℕ → Session → SpdrInfo × Session
unfolding get_pdr
remove_pdr id s = (get_pdr id s, record s { pdrs = remove id s.pdrs })
