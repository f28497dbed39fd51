-- ===== src/Core/GtpPaths.antt =====
-- cmd/core/gtp_path_manager.go: the peers to which echo requests go out at every tick. What the
-- calls of gopacket and net return in one sendEcho is a value, and Done of the context an event.
pub mod Responses
pub mod Echoes
use eupf.Base.{
  ℕ, ◌+◌, ◌%◌, ◌^◌, Option, none, some, List, [], ◌∷◌, ◌==◌, if◌then◌else◌, String, string_eq, not,
}
use eupf.Base.Outcome.{Outcome, ok, err, panic, Error, unexpected_echo}
use eupf.Base.Table.{Table, insert}
use eupf.Base.MapOrder.{MapOrder, branch}

-- `peers` holds the next sequence number of each peer, a uint16.
pub record GtpPathManager : Type 0 where
  pub manager_address : String
  pub peers : Table String ℕ
  pub check_interval : ℕ

unfoldable pub new_gtp_path_manager : String → ℕ → GtpPathManager
new_gtp_path_manager local_address interval = record {
  manager_address = local_address;
  peers = [];
  check_interval = interval;
}

unfoldable pub add_gtp_path : String → GtpPathManager → GtpPathManager
unfolding insert
add_gtp_path gtp_peer_address m = record m { peers = insert gtp_peer_address 0 m.peers }

-- The layers.GTPv1U of a packet.
pub record GtpLayer : Type 0 where
  pub message_type : ℕ
  pub gtp_teid : ℕ

-- What the calls of one sendEcho return: the errors of SerializeLayers, ResolveUDPAddr twice,
-- DialUDP, Write and Read, the GTP layer of the packet that was read, and the time it took.
pub record EchoCalls : Type 0 where
  pub serialize_failure : Option Error
  pub local_failure : Option Error
  pub remote_failure : Option Error
  pub dial_failure : Option Error
  pub write_failure : Option Error
  pub read_failure : Option Error
  pub gtp_layer : Option GtpLayer
  pub elapsed_time : ℕ

-- `if err != nil { return 0, err }`.
abbrev pub unless_failed : Option Error → Outcome ℕ → Outcome ℕ
unless_failed none rest = rest
unless_failed (some e) rest = err e

abbrev pub check_layer : ℕ → Option GtpLayer → Outcome ℕ
check_layer elapsed_time none = err unexpected_echo
check_layer elapsed_time (some gtp) =
    if not (gtp.message_type == 2)
    then err unexpected_echo
    else if not (gtp.gtp_teid == 0)
    then err unexpected_echo
    else ok elapsed_time

unfoldable pub send_echo : EchoCalls → Outcome ℕ
send_echo c = unless_failed c.serialize_failure (
    unless_failed c.local_failure (
      unless_failed c.remote_failure (
        unless_failed c.dial_failure (
          unless_failed c.write_failure
            (unless_failed c.read_failure (check_layer c.elapsed_time c.gtp_layer))))))

-- The calls for each peer and sequence number during one tick.
abbrev pub Answers : Type 0
Answers = String → ℕ → EchoCalls

abbrev pub next_sequence : Outcome ℕ → String → ℕ → Table String ℕ → Table String ℕ
next_sequence (ok elapsed) peer sequence_number peers =
    insert peer ((sequence_number + 1) % 2 ^ 16) peers
next_sequence (err e) peer sequence_number peers = peers
next_sequence panic peer sequence_number peers = peers

-- The body of `for peer, sequenceNumber := range gtpPathManager.peers`.
unfoldable pub echo_peers : Answers → Table String ℕ → Table String ℕ → Table String ℕ
unfolding send_echo insert
echo_peers calls [] peers = peers
echo_peers calls ((peer, sequence_number) ∷ rest) peers =
    echo_peers calls rest
      (next_sequence (send_echo (calls peer sequence_number)) peer sequence_number peers)

pub data GtpEvent : Type 0 where
  done : GtpEvent
  tick : Answers → GtpEvent

unfoldable pub gtp_tick : MapOrder → Answers → GtpPathManager → GtpPathManager
unfolding echo_peers
gtp_tick order calls m = record m {
  peers = echo_peers calls (order.visit [] String ℕ m.peers) m.peers;
}

-- Run, on what its select takes up.
unfoldable pub gtp_run : MapOrder → List GtpEvent → GtpPathManager → GtpPathManager
unfolding gtp_tick
gtp_run order [] m = m
gtp_run order (done ∷ events) m = m
gtp_run order (tick calls ∷ events) m =
    gtp_run (branch 1 order) events (gtp_tick (branch 0 order) calls m)
