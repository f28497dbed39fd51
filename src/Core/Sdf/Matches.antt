-- ===== src/Core/Sdf/Matches.antt =====
-- What the groups for ports hold where the regular expression of ParseSdfFilter matches.
use eupf.Base.{
  ◌≡◌, Bool, true, false, ◌&&◌, Option, none, some, List, [], ◌∷◌, if◌then◌else◌, bytes_beq, inl,
  inr, Bool-cases,
}
use eupf.Base.Text.{Text, codes}
use eupf.Core.Sdf.{
  Match, source_match, is_protocol, is_port_group, match_address, is_address, is_destination,
  finish, match_destination, match_source_port, match_words, match_flow,
}

-- A group that took part in the match has the form of ports.
abbrev pub PortGroup : Text → Type 0
PortGroup [] = Unit
PortGroup (c ∷ cs) = is_port_group (c ∷ cs) ≡ true

group-PortGroup : (w : Text) → is_port_group w ≡ true → PortGroup w
group-PortGroup [] h = tt
group-PortGroup (c ∷ cs) h = h

abbrev pub HasPorts : Match → Type 0
HasPorts m = PortGroup m.src_port × PortGroup m.dst_port

-- The match, if there is one, has ports or none.
abbrev pub Ported : Option Match → Type 0
Ported none = Unit
Ported (some m) = HasPorts m

Ported-if : (b : Bool) (x : Option Match) → Ported x → Ported (if b then x else none)
Ported-if true x h = h
Ported-if false x h = tt

finish-Ported : (m : Match) (ws : List Text) → HasPorts m → Ported (finish m ws)
unfolding match_flow
finish-Ported m [] h = h
finish-Ported m (p ∷ []) h = elim (Bool-cases (is_port_group p)) [
  | inl e ↦ rw e (h.0, group-PortGroup p e)
  | inr e ↦ rw e tt
]
finish-Ported m (p ∷ q ∷ ws) h = tt

match_destination-Ported :
    (m : Match) (ws : List Text) → HasPorts m → Ported (match_destination m ws)
unfolding match_flow
match_destination-Ported m [] h = tt
match_destination-Ported m (t ∷ []) h = tt
match_destination-Ported m (t ∷ b ∷ rest) h = found (match_address is_destination b)
  where
    found :
        (o : Option (Text × Text))
        → Ported (elim o [
          | none ↦ none
          | some (d, mask) ↦
              if bytes_beq t (codes "to")
              then finish (record m { dst = d; dst_mask = mask }) rest
              else none
        ])
    found none = tt
    found (some (d, mask)) =
        Ported-if (bytes_beq t (codes "to")) _
          (finish-Ported (record m { dst = d; dst_mask = mask }) rest h)

match_source_port-Ported :
    (m : Match) (ws : List Text) → HasPorts m → Ported (match_source_port m ws)
unfolding match_flow
match_source_port-Ported m [] h = tt
match_source_port-Ported m (w ∷ rest) h = elim (Bool-cases (is_port_group w)) [
  | inl e ↦
      rw e (match_destination-Ported (record m { src_port = w }) rest (group-PortGroup w e, h.1))
  | inr e ↦ rw e (match_destination-Ported m (w ∷ rest) h)
]

pub match_words-Ported : (ws : List Text) → Ported (match_words ws)
unfolding match_flow
match_words-Ported (permit ∷ out ∷ p ∷ from ∷ a ∷ rest) = found (match_address is_address a)
  where
    found :
        (o : Option (Text × Text))
        → Ported (elim o [
          | none ↦ none
          | some (s, mask) ↦
              if bytes_beq permit (codes "permit")
                && bytes_beq out (codes "out")
                && is_protocol p
                && bytes_beq from (codes "from")
              then match_source_port (source_match p s mask) rest
              else none
        ])
    found none = tt
    found (some (s, mask)) =
        Ported-if
          (bytes_beq permit (codes "permit")
            && bytes_beq out (codes "out")
            && is_protocol p
            && bytes_beq from (codes "from"))
          (match_source_port (source_match p s mask) rest)
          (match_source_port-Ported (source_match p s mask) rest (tt, tt))
match_words-Ported [] = tt
match_words-Ported (a ∷ []) = tt
match_words-Ported (a ∷ b ∷ []) = tt
match_words-Ported (a ∷ b ∷ c ∷ []) = tt
match_words-Ported (a ∷ b ∷ c ∷ d ∷ []) = tt
