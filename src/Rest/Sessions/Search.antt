-- ===== src/Rest/Sessions/Search.antt =====
-- What the session listings of cmd/api/rest/pfcp_sessions.go find, in whatever orders they range.
use mathlib.Core.List.Perm
use mathlib.Core.List.{
  Permᴰ, flat_map, mem-append_left, mem-append_right, perm_middle, mem-cons_self, Perm-prop,
}
use mathlib.Core.Logic.{∥∥₁_elim}
use native.Mathlib.Nat.{ℕ_set}
use eupf.Base.{
  ℕ, suc, length-append, ◌≡◌, ◌∙◌, refl, sym, ap, subst, Bool, true, false, ◌&&◌, not, Option, none,
  some, List, [], ◌∷◌, ◌++◌, map, length, arith, ◌==◌, String, Mem, Perm, inl, inr, Bool-cases,
}
use eupf.Base.Table.{Table}
use eupf.Base.Table.Total.{total, length-total}
use eupf.Base.Table.Every.{every_entry, every_entry-perm}
use eupf.Base.MapOrder.{MapOrder, branch}
use eupf.Ebpf.Types.{Bytes}
use eupf.Core.Session.{Session, SpdrInfo}
use eupf.Core.Connection.{NodeAssociation, PfcpConnection, get_session_count}
use eupf.Rest.Sessions.{
  ip_equal, any_pdr, session_has, first_session, or_else, search_nodes, filter_sessions_by_ip,
  filter_sessions_by_teid, sessions_of, get_all_sessions,
}

-- Some PDR of the session passes the test.
abbrev pub holds_pdr : (SpdrInfo → Bool) → Session → Bool
holds_pdr test s = not (every_entry (λ e. not (test e.1)) s.pdrs)

abbrev pub with_teid : ℕ → SpdrInfo → Bool
with_teid teid pdr = pdr.teid == teid

abbrev pub with_ipv4 : Bytes → SpdrInfo → Bool
with_ipv4 ip pdr = elim pdr.ipv4 [ none ↦ false | some a ↦ ip_equal a ip ]

-- A session of the list that holds such a PDR, or none because there is none.
abbrev pub Finds : (SpdrInfo → Bool) → List Session → Option Session → Type 0
Finds test ss (some s) = Mem s ss × (holds_pdr test s ≡ true)
Finds test ss none = every_entry (λ s. not (holds_pdr test s)) ss ≡ true

any_pdr-every :
    (test : SpdrInfo → Bool) (m : Table ℕ SpdrInfo)
    → any_pdr test m ≡ not (every_entry (λ e. not (test e.1)) m)
any_pdr-every test [] = refl
any_pdr-every test ((k, pdr) ∷ m) = ground (arith, any_pdr-every test m)

session_has-holds_pdr :
    (o : MapOrder) (test : SpdrInfo → Bool) (s : Session) → session_has o test s ≡ holds_pdr test s
session_has-holds_pdr o test s =
    any_pdr-every test (o.visit [] ℕ SpdrInfo s.pdrs)
    ∙ ap not (every_entry-perm (λ e. not (test e.1)) (o.visit-perm [] ℕ SpdrInfo s.pdrs))

Finds-perm :
    (test : SpdrInfo → Bool) (r : Option Session) {xs ys : List Session}
    → Perm xs ys
    → Finds test xs r
    → Finds test ys r
Finds-perm test (some s) p h = ((Perm.mem_iff p).0 h.0, h.1)
Finds-perm test none p h = sym (every_entry-perm (λ s. not (holds_pdr test s)) p) ∙ h

every_entry-append :
    (q : Session → Bool) (xs ys : List Session)
    → every_entry q (xs ++ ys) ≡ (every_entry q xs && every_entry q ys)
every_entry-append q [] ys = refl
every_entry-append q (x ∷ xs) ys = ground (arith, every_entry-append q xs ys)

Finds-append :
    (test : SpdrInfo → Bool) (r r' : Option Session) (xs ys : List Session)
    → Finds test xs r
    → Finds test ys r'
    → Finds test (xs ++ ys) (or_else r r')
Finds-append test (some s) r' xs ys h k = (mem-append_left ys h.0, h.1)
Finds-append test none (some s) xs ys h k = (mem-append_right xs k.0, k.1)
Finds-append test none none xs ys h k =
    ground (arith, every_entry-append (λ s. not (holds_pdr test s)) xs ys, h, k)

first_session-Finds :
    (o : MapOrder) (test : SpdrInfo → Bool) (m : Table ℕ Session)
    → Finds test (map (λ e. e.1) m) (first_session o test m)
first_session-Finds o test [] = refl
first_session-Finds o test ((k, s) ∷ m) = elim (Bool-cases (session_has (branch 0 o) test s)) [
  | inl e ↦ rw e (mem-cons_self, sym (session_has-holds_pdr (branch 0 o) test s) ∙ e)
  | inr e ↦ rw e (
      Finds-append test none (first_session (branch 1 o) test m) (s ∷ []) (map (λ x. x.1) m)
        (ground (arith, session_has-holds_pdr (branch 0 o) test s, e))
        (first_session-Finds (branch 1 o) test m))
]

length-map_entries : {V : Type 0} (m : Table ℕ V) → length (map (λ e. e.1) m) ≡ total (λ _. 1) m
unfolding total
length-map_entries [] = refl
length-map_entries (x ∷ m) = omega (arith, length-map_entries m)

length-perm : {xs ys : List Session} → Perm xs ys → length xs ≡ length ys
length-perm p = ∥∥₁_elim p (ℕ_set _ _) same
  where
    same : {xs ys : List Session} → Permᴰ xs ys → length xs ≡ length ys
    same Permᴰ.nil = refl
    same (Permᴰ.cons e d) = ap suc (same d)
    same (Permᴰ.swap e f) = refl
    same (Permᴰ.trans d f) = same d ∙ same f

node_sessions : String × NodeAssociation → List Session
node_sessions e = map (λ x. x.1) e.1.sessions

sessions_of-perm :
    (o : MapOrder) (nodes : Table String NodeAssociation)
    → Perm (sessions_of o nodes) (flat_map node_sessions nodes)
unfolding flat_map node_sessions
sessions_of-perm o [] = Perm.refl []
sessions_of-perm o ((k, a) ∷ nodes) =
    Perm.append (Perm.map (λ x. x.1) ((branch 0 o).visit-perm [] ℕ Session a.sessions))
      (sessions_of-perm (branch 1 o) nodes)

append-swap : (xs ys zs : List Session) → Perm (xs ++ (ys ++ zs)) (ys ++ (xs ++ zs))
append-swap [] ys zs = Perm.refl (ys ++ zs)
append-swap (x ∷ xs) ys zs =
    Perm.trans (Perm.append_left (x ∷ []) (append-swap xs ys zs))
      (Perm.symm (perm_middle ys (xs ++ zs)))

-- Which associations come first does not matter.
flat_map-perm :
    {xs ys : Table String NodeAssociation}
    → Permᴰ xs ys
    → Perm (flat_map node_sessions xs) (flat_map node_sessions ys)
unfolding flat_map
flat_map-perm Permᴰ.nil = Perm.refl []
flat_map-perm (Permᴰ.cons {a} {b} {l₁} {l₂} e d) =
    subst
      (λ l. Perm (node_sessions a ++ flat_map node_sessions l₁) (l ++ flat_map node_sessions l₂))
      (ap node_sessions e) (Perm.append_left (node_sessions a) (flat_map-perm d))
flat_map-perm (Permᴰ.swap {a} {b} {a'} {b'} {l} e f) =
    subst
      (λ u.
        Perm (node_sessions a ++ (node_sessions b ++ flat_map node_sessions l))
          (node_sessions a' ++ (u ++ flat_map node_sessions l)))
      (ap node_sessions e)
      (subst
        (λ u.
          Perm (node_sessions a ++ (node_sessions b ++ flat_map node_sessions l))
            (u ++ (node_sessions a ++ flat_map node_sessions l)))
        (ap node_sessions f)
        (append-swap (node_sessions a) (node_sessions b) (flat_map node_sessions l)))
flat_map-perm (Permᴰ.trans d f) = Perm.trans (flat_map-perm d) (flat_map-perm f)

get_all_sessions-perm :
    (o : MapOrder) (nodes : Table String NodeAssociation)
    → Perm (get_all_sessions o nodes) (flat_map node_sessions nodes)
unfolding get_all_sessions
get_all_sessions-perm o nodes =
    Perm.trans (sessions_of-perm (branch 1 o) ((branch 0 o).visit [] String NodeAssociation nodes))
      (∥∥₁_elim ((branch 0 o).visit-perm [] String NodeAssociation nodes) Perm-prop flat_map-perm)

search_nodes-Finds :
    (o : MapOrder) (test : SpdrInfo → Bool) (nodes : Table String NodeAssociation)
    → Finds test (flat_map node_sessions nodes) (search_nodes o test nodes)
unfolding flat_map node_sessions
search_nodes-Finds o test [] = refl
search_nodes-Finds o test ((k, a) ∷ nodes) =
    let visited = (branch 0 o).visit [] ℕ Session a.sessions in
    Finds-append test (first_session (branch 1 o) test visited)
      (search_nodes (branch 2 o) test nodes) (node_sessions (k, a)) (flat_map node_sessions nodes)
      (Finds-perm test (first_session (branch 1 o) test visited)
        (Perm.map (λ x. x.1) ((branch 0 o).visit-perm [] ℕ Session a.sessions))
        (first_session-Finds (branch 1 o) test visited))
      (search_nodes-Finds (branch 2 o) test nodes)

-- A search over the visited associations, against a listing made in other orders.
visited-Finds :
    (o p : MapOrder) (test : SpdrInfo → Bool) (nodes : Table String NodeAssociation)
    → Finds test
        (get_all_sessions p nodes)
        (search_nodes (branch 1 o) test ((branch 0 o).visit [] String NodeAssociation nodes))
visited-Finds o p test nodes =
    let visited = (branch 0 o).visit [] String NodeAssociation nodes in
    Finds-perm test (search_nodes (branch 1 o) test visited)
      (Perm.trans
        (∥∥₁_elim ((branch 0 o).visit-perm [] String NodeAssociation nodes) Perm-prop flat_map-perm)
        (Perm.symm (get_all_sessions-perm p nodes)))
      (search_nodes-Finds (branch 1 o) test visited)

length-flat_map :
    (nodes : Table String NodeAssociation)
    → length (flat_map node_sessions nodes) ≡ total (λ a. length a.sessions) nodes
unfolding total flat_map node_sessions
length-flat_map [] = refl
length-flat_map ((k, a) ∷ nodes) = omega (
  arith,
  length-append (node_sessions (k, a)) (flat_map node_sessions nodes),
  length-map_entries a.sessions,
  length-total a.sessions,
  length-flat_map nodes,
)

-- GetAllSessions lists as many sessions as GetSessionCount counts, in whatever orders it ranges.
-- FilterSessionsByTeid and FilterSessionsByIP, each ranging over the maps in orders of its own,
-- give a session of that list with a PDR of that TEID or of that IPv4 address; they give nil
-- only when no session of the list has such a PDR.
pub filter_sessions-Finds :
    {Plane : Type 0} (o p q : MapOrder) (c : PfcpConnection Plane) (teid : ℕ) (ip : Bytes)
    → (length (get_all_sessions p c.node_associations) ≡ get_session_count c)
      × Finds
          (with_teid teid)
          (get_all_sessions p c.node_associations)
          (filter_sessions_by_teid o c.node_associations teid)
      × Finds
          (with_ipv4 ip)
          (get_all_sessions p c.node_associations)
          (filter_sessions_by_ip q c.node_associations ip)
unfolding filter_sessions_by_teid filter_sessions_by_ip get_session_count
filter_sessions-Finds o p q c teid ip = (
  length-perm (get_all_sessions-perm p c.node_associations) ∙ length-flat_map c.node_associations,
  visited-Finds o p (with_teid teid) c.node_associations,
  visited-Finds q p (with_ipv4 ip) c.node_associations,
)
