-- ===== src/Rest/Sessions.antt =====
-- cmd/api/rest/pfcp_sessions.go and pfcp_associations.go: associations and sessions as they are
-- listed, by nested `range` over the maps of the connection.
pub mod Search
use eupf.Base.{
  ℕ, Bool, true, false, ◌&&◌, ◌||◌, Option, none, some, List, [], ◌∷◌, ◌++◌, map, length, bytes_beq,
  ◌==◌, if◌then◌else◌, String,
}
use eupf.Base.Text.{Text}
use eupf.Base.Table.{Table}
use eupf.Base.MapOrder.{MapOrder, branch}
use eupf.Ebpf.Types.{Bytes}
use eupf.Core.ParseIp.{parse_ip, v4_in_v6_prefix}
use eupf.Core.Session.{Session, SpdrInfo}
use eupf.Core.Connection.{NodeAssociation, PfcpConnection}
use eupf.Rest.{HttpReply, answers, fails, atoi, to_uint32}

-- IP.Equal: an IPv4 address is equal to its IPv6 form.
unfoldable pub ip_equal : Bytes → Bytes → Bool
ip_equal a b =
    bytes_beq a b
    || (length a == 4 && bytes_beq (v4_in_v6_prefix ++ a) b)
    || (length b == 4 && bytes_beq a (v4_in_v6_prefix ++ b))

-- A nil address is equal to no address that was parsed.
abbrev pub has_ip : Bytes → SpdrInfo → Bool
has_ip ip pdr = elim pdr.ipv4 [ none ↦ false | some a ↦ ip_equal a ip ]

abbrev pub has_teid : ℕ → SpdrInfo → Bool
has_teid teid pdr = pdr.teid == teid

-- The loop over the PDRs of a session.
abbrev pub any_pdr : (SpdrInfo → Bool) → Table ℕ SpdrInfo → Bool
any_pdr test [] = false
any_pdr test ((_, pdr) ∷ pdrs) = let rest = any_pdr test pdrs in if test pdr then true else rest

abbrev pub session_has : MapOrder → (SpdrInfo → Bool) → Session → Bool
session_has o test s = any_pdr test (o.visit [] ℕ SpdrInfo s.pdrs)

abbrev pub first_session : MapOrder → (SpdrInfo → Bool) → Table ℕ Session → Option Session
first_session o test [] = none
first_session o test ((_, s) ∷ sessions) =
    let rest = first_session (branch 1 o) test sessions in
    if session_has (branch 0 o) test s then some s else rest

abbrev pub or_else : Option Session → Option Session → Option Session
or_else (some s) rest = some s
or_else none rest = rest

-- One entry of the map of associations after another; each ranges over its own sessions.
abbrev pub search_nodes :
    MapOrder → (SpdrInfo → Bool) → Table String NodeAssociation → Option Session
search_nodes o test [] = none
search_nodes o test ((_, a) ∷ nodes) =
    or_else (first_session (branch 1 o) test ((branch 0 o).visit [] ℕ Session a.sessions))
      (search_nodes (branch 2 o) test nodes)

unfoldable pub filter_sessions_by_ip :
    MapOrder → Table String NodeAssociation → Bytes → Option Session
unfolding ip_equal
filter_sessions_by_ip o node_map ip =
    search_nodes (branch 1 o) (has_ip ip) ((branch 0 o).visit [] String NodeAssociation node_map)

unfoldable pub filter_sessions_by_teid :
    MapOrder → Table String NodeAssociation → ℕ → Option Session
filter_sessions_by_teid o node_map teid =
    search_nodes (branch 1 o) (has_teid teid)
      ((branch 0 o).visit [] String NodeAssociation node_map)

abbrev pub sessions_of : MapOrder → Table String NodeAssociation → List Session
sessions_of o [] = []
sessions_of o ((_, a) ∷ nodes) =
    map (λ entry. entry.1) ((branch 0 o).visit [] ℕ Session a.sessions)
    ++ sessions_of (branch 1 o) nodes

unfoldable pub get_all_sessions : MapOrder → Table String NodeAssociation → List Session
get_all_sessions o node_map =
    sessions_of (branch 1 o) ((branch 0 o).visit [] String NodeAssociation node_map)

module _ (o : MapOrder) where
  abbrev pub found : Option Session → List Session
  found none = []
  found (some s) = s ∷ []

  -- What is written for one query parameter, and the session that is found; a bad one does not end
  -- the handler.
  abbrev pub by_ip :
      Table String NodeAssociation → Text → List (HttpReply (List Session)) × List Session
  by_ip node_map [] = ([], [])
  by_ip node_map (c ∷ cs) = elim (parse_ip (c ∷ cs)) [
    | none ↦ (fails 400 ∷ [], [])
    | some ip ↦ ([], found (filter_sessions_by_ip (branch 0 o) node_map ip))
  ]

  abbrev pub by_teid :
      Table String NodeAssociation → Text → List (HttpReply (List Session)) × List Session
  by_teid node_map [] = ([], [])
  by_teid node_map (c ∷ cs) = elim (atoi (c ∷ cs)) [
    | none ↦ (fails 400 ∷ [], [])
    | some teid ↦ ([], found (filter_sessions_by_teid (branch 1 o) node_map (to_uint32 teid)))
  ]

  abbrev pub filtered :
      List (HttpReply (List Session)) × List Session
      → List (HttpReply (List Session)) × List Session
      → List (HttpReply (List Session))
  filtered (ip_replies, ip_found) (teid_replies, teid_found) =
      ip_replies ++ teid_replies ++ (answers 200 (ip_found ++ teid_found) ∷ [])

  -- listPfcpSessionsFiltered, and all that it writes.
  unfoldable pub list_pfcp_sessions_filtered :
      Text → Text → Table String NodeAssociation → List (HttpReply (List Session))
  unfolding get_all_sessions filter_sessions_by_ip filter_sessions_by_teid parse_ip atoi
  list_pfcp_sessions_filtered [] [] node_map =
      answers 200 (get_all_sessions (branch 2 o) node_map) ∷ []
  list_pfcp_sessions_filtered s_ip s_teid node_map =
      filtered (by_ip node_map s_ip) (by_teid node_map s_teid)

-- NodeAssociationNoSession.
pub record NodeAssociationNoSession : Type 0 where
  pub listed_id : String
  pub listed_addr : String
  pub listed_next_session_id : ℕ

abbrev pub no_session : String × NodeAssociation → String × NodeAssociationNoSession
no_session (k, a) = (
  k,
  record {
    listed_id = a.association_id;
    listed_addr = a.addr;
    listed_next_session_id = a.next_session_id;
  },
)

-- listPfcpAssociations: a map under the same keys.
unfoldable pub list_pfcp_associations :
    {Plane : Type 0} → PfcpConnection Plane → HttpReply (Table String NodeAssociationNoSession)
list_pfcp_associations c = answers 200 (map no_session c.node_associations)

unfoldable pub list_pfcp_associations_full :
    {Plane : Type 0} → PfcpConnection Plane → HttpReply (Table String NodeAssociation)
list_pfcp_associations_full c = answers 200 c.node_associations
