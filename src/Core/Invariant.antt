-- ===== src/Core/Invariant.antt =====
-- The invariant of the connection of cmd/core/pfcp_connection.go: each association is under its
-- own address, each session under its own local SEID, and no local SEID is above the
-- association's counter, which `n` bounds.
pub mod Establish
pub mod Change
pub mod Associate
pub mod Run
use eupf.Base.{
  ℕ, suc, ◌+◌, ◌%◌, ◌^◌, ◌≤◌, ◌<◌, ◌≡◌, refl, Option, none, some, String, List, [], ◌∷◌, All,
  nat_eq, string_eq, arith, inl, inr, Option-cases,
}
use eupf.Base.Table.{Table, lookup, insert, remove}
use eupf.Base.Table.Total.{UniqueKeys, insert-UniqueKeys, remove-UniqueKeys}
use eupf.Base.Table.Entries.{All-insert, All-remove, All-lookup, All-weaken}
use eupf.Core.Session.{Session}
use eupf.Core.Connection.{
  PfcpConnection, NodeAssociation, put_association, new_local_seid, new_node_association,
}

abbrev pub SessionEntry : ℕ → ℕ × Session → Type 0
SessionEntry n (id, s) = (s.local_seid ≡ id) × (id ≤ n)

pub record IsAssociation (n : ℕ) (addr : String) (a : NodeAssociation) : Type 0 where
  pub own_address : a.addr ≡ addr
  pub counted : a.next_session_id ≤ n
  pub keys : UniqueKeys a.sessions
  pub entries : All (SessionEntry a.next_session_id) a.sessions

abbrev pub AssociationEntry : ℕ → String × NodeAssociation → Type 0
AssociationEntry n (addr, a) = IsAssociation n addr a

abbrev pub AreAssociations : ℕ → Table String NodeAssociation → Type 0
AreAssociations n m = UniqueKeys m × All (AssociationEntry n) m

abbrev pub IsValid : {Plane : Type 0} → ℕ → PfcpConnection Plane → Type 0
IsValid n c = AreAssociations n c.node_associations

-- Sessions of one association.
pub put-IsAssociation :
    (n : ℕ) (addr : String) (a : NodeAssociation) (id : ℕ) (s : Session)
    → IsAssociation n addr a
    → SessionEntry a.next_session_id (id, s)
    → IsAssociation n addr (record a { sessions = insert id s a.sessions })
put-IsAssociation n addr a id s h e = record {
  own_address = h.own_address;
  counted = h.counted;
  keys = insert-UniqueKeys id s a.sessions h.keys;
  entries = All-insert (SessionEntry a.next_session_id) id s a.sessions e h.entries;
}

pub remove-IsAssociation :
    (n : ℕ) (addr : String) (a : NodeAssociation) (id : ℕ)
    → IsAssociation n addr a
    → IsAssociation n addr (record a { sessions = remove id a.sessions })
remove-IsAssociation n addr a id h = record {
  own_address = h.own_address;
  counted = h.counted;
  keys = remove-UniqueKeys id a.sessions h.keys;
  entries = All-remove (SessionEntry a.next_session_id) id a.sessions h.entries;
}

-- A local SEID that the association has not given out.
pub above-lookup :
    (a : NodeAssociation) (id : ℕ)
    → All (SessionEntry a.next_session_id) a.sessions
    → a.next_session_id < id
    → lookup id a.sessions ≡ none
above-lookup a id h above = elim (Option-cases (lookup id a.sessions)) [
  | inl missing ↦ missing
  | inr (s, found) ↦
      ground (arith, (All-lookup (SessionEntry a.next_session_id) id s a.sessions h found).1)
]

pub new_local_seid-IsAssociation :
    (n : ℕ) (addr : String) (a : NodeAssociation)
    → n + 1 < 2 ^ 64
    → IsAssociation n addr a
    → IsAssociation (suc n) addr (new_local_seid a).1
unfolding new_local_seid
new_local_seid-IsAssociation n addr a small h = record {
  own_address = h.own_address;
  counted = omega (arith, h.counted);
  keys = h.keys;
  entries = All-weaken a.sessions (λ x e. (e.0, omega (arith, e.1, h.counted))) h.entries;
}

-- Associations of the connection.
pub put-AreAssociations :
    (n : ℕ) (addr : String) (a : NodeAssociation) (m : Table String NodeAssociation)
    → AreAssociations n m
    → IsAssociation n addr a
    → AreAssociations n (insert addr a m)
put-AreAssociations n addr a m h e =
    (insert-UniqueKeys addr a m h.0, All-insert (AssociationEntry n) addr a m e h.1)

pub remove-AreAssociations :
    (n : ℕ) (addr : String) (m : Table String NodeAssociation)
    → AreAssociations n m
    → AreAssociations n (remove addr m)
remove-AreAssociations n addr m h =
    (remove-UniqueKeys addr m h.0, All-remove (AssociationEntry n) addr m h.1)

pub suc-AreAssociations :
    (n : ℕ) (m : Table String NodeAssociation) → AreAssociations n m → AreAssociations (suc n) m
suc-AreAssociations n m h = (
  h.0,
  All-weaken m
      (λ x e. record {
        own_address = e.own_address;
        counted = omega (arith, e.counted);
        keys = e.keys;
        entries = e.entries;
      })
      h.1,
)

pub lookup-IsAssociation :
    (n : ℕ) (addr : String) (a : NodeAssociation) (m : Table String NodeAssociation)
    → AreAssociations n m
    → lookup addr m ≡ some a
    → IsAssociation n addr a
lookup-IsAssociation n addr a m h found = All-lookup (AssociationEntry n) addr a m h.1 found

pub new-IsAssociation :
    (n : ℕ) (node_id addr : String) → IsAssociation (suc n) addr (new_node_association node_id addr)
unfolding new_node_association
new-IsAssociation n node_id addr = record {
  own_address = refl;
  counted = omega arith;
  keys = tt;
  entries = tt;
}
