-- ===== src/Core/Rules/Crashes.antt =====
-- When composeFarInfo of cmd/core/pfcp_session_handlers.go crashes.
use eupf.Base.{
  ℕ, ◌∙◌, ap, ◌/◌, ◌%◌, ◌≡◌, ◌≢◌, refl, Bool, true, false, ◌&&◌, ◌||◌, Option, none, some, List, [],
  ◌∷◌, arith, ltb, length, ◌==◌, if◌then◌else◌, inl, inr, Bool-cases,
}
use eupf.Base.Outcome.{Outcome, ok, err, panic, and_then, ipv6_not_supported, unsupported_ie_type}
use eupf.Ebpf.Types.{Bytes, FarInfo}
use eupf.Core.Ie.{
  FarIe, ChildIe, OuterHeaderCreation, find_ie, type_create_far, type_update_far,
  type_outer_header_creation,
}
use eupf.Core.Rules.{
  compose_far_info, with_apply_action, with_outer_header, with_outer_header_ie, with_forward,
  forward_of, little_endian_uint32, with_marking, get_transport_level_marking,
}

abbrev empty_action : Option Bytes → Bool
empty_action (some []) = true
empty_action _ = false

-- An outer header that does not decode, or that has an IPv4 address of less than four bytes.
abbrev bad_header : Option OuterHeaderCreation → Bool
bad_header none = true
bad_header (some o) = o.has_ipv4 && ltb (length o.ohc_ipv4_address) 4

abbrev bad_child : Option ChildIe → Bool
bad_child none = false
bad_child (some ie) = bad_header ie.ie_outer_header_creation

abbrev bad_forward : Option (List ChildIe) → Bool
bad_forward none = false
bad_forward (some xs) = bad_child (find_ie type_outer_header_creation xs)

-- An Apply Action without a byte, or a bad outer header in the parameters of the IE's type.
abbrev pub bad_far : FarIe → Bool
bad_far far =
    empty_action far.apply_action
    || (if far.far_type == type_create_far
        then bad_forward far.forwarding_parameters
        else if far.far_type == type_update_far
        then bad_forward far.update_forwarding_parameters
        else false)

abbrev is_ok : {A : Type 0} → Outcome A → Bool
is_ok (ok a) = true
is_ok _ = false

abbrev panics : {A : Type 0} → Outcome A → Bool
panics panic = true
panics (ok a) = false
panics (err e) = false

little_endian_uint32-panics : (b : Bytes) → panics (little_endian_uint32 b) ≡ ltb (length b) 4
unfolding little_endian_uint32
little_endian_uint32-panics (a ∷ b ∷ c ∷ d ∷ rest) = ground arith
little_endian_uint32-panics [] = refl
little_endian_uint32-panics (a ∷ []) = refl
little_endian_uint32-panics (a ∷ b ∷ []) = refl
little_endian_uint32-panics (a ∷ b ∷ c ∷ []) = refl

address-panics :
    (r : Outcome ℕ) (info : FarInfo) (six : Bool)
    → panics (
        and_then
          (and_then r (λ ip. ok (record info { remote_ip = ip })))
          (λ i. if six then err ipv6_not_supported else ok i))
      ≡ panics r
address-panics (ok a) info true = refl
address-panics (ok a) info false = refl
address-panics (err e) info six = refl
address-panics panic info six = refl

v6-panics :
    (info : FarInfo) (six : Bool) → panics (if six then err ipv6_not_supported else ok info) ≡ false
v6-panics info true = refl
v6-panics info false = refl

with_outer_header-panics :
    (h : Option OuterHeaderCreation) (info : FarInfo)
    → panics (with_outer_header h info) ≡ bad_header h
with_outer_header-panics none info = refl
with_outer_header-panics (some o) info = elim (Bool-cases o.has_ipv4) [
  | inl e ↦ rw e (
      address-panics (little_endian_uint32 o.ohc_ipv4_address)
        (record info { outer_header_creation = o.description / 256 % 256; teid = o.ohc_teid })
        o.has_ipv6
      ∙ little_endian_uint32-panics o.ohc_ipv4_address)
  | inr e ↦ rw e (
      v6-panics
        (record info { outer_header_creation = o.description / 256 % 256; teid = o.ohc_teid })
        o.has_ipv6)
]

with_forward-panics :
    (f : Option (List ChildIe)) (info : FarInfo) → panics (with_forward f info) ≡ bad_forward f
with_forward-panics none info = refl
with_forward-panics (some xs) info = child (find_ie type_outer_header_creation xs)
  where
    child : (x : Option ChildIe) → panics (with_outer_header_ie x info) ≡ bad_child x
    child none = refl
    child (some ie) = with_outer_header-panics ie.ie_outer_header_creation info

marked-panics :
    (m : Outcome FarInfo) (f : FarInfo → FarInfo) → panics (and_then m (λ i. ok (f i))) ≡ panics m
marked-panics (ok i) f = refl
marked-panics (err e) f = refl
marked-panics panic f = refl

-- The rest of composeFarInfo, once the Apply Action is read.
forwarded-panics :
    (far : FarIe) (info : FarInfo) (create update : Bool)
    → panics (
        and_then
          (if create
            then ok far.forwarding_parameters
            else if update
            then ok far.update_forwarding_parameters
            else err unsupported_ie_type)
          (λ forward.
            and_then
              (with_forward forward info)
              (λ i. ok (with_marking (get_transport_level_marking far) i))))
      ≡ (if create
          then bad_forward far.forwarding_parameters
          else if update
          then bad_forward far.update_forwarding_parameters
          else false)
forwarded-panics far info true update =
    marked-panics (with_forward far.forwarding_parameters info) _
    ∙ with_forward-panics far.forwarding_parameters info
forwarded-panics far info false true =
    marked-panics (with_forward far.update_forwarding_parameters info) _
    ∙ with_forward-panics far.update_forwarding_parameters info
forwarded-panics far info false false = refl

-- composeFarInfo crashes exactly on an Apply Action without a byte and on a bad outer header.
compose_far_info-panics :
    (far : FarIe) (info : FarInfo) → panics (compose_far_info far info) ≡ bad_far far
unfolding compose_far_info
compose_far_info-panics far info = read far.apply_action
  where
    read :
        (action : Option Bytes)
        → panics (
            and_then (with_apply_action action info) (λ with_action.
              and_then (forward_of far) (λ forward.
                and_then
                  (with_forward forward with_action)
                  (λ i. ok (with_marking (get_transport_level_marking far) i)))))
          ≡ (empty_action action
              || (if far.far_type == type_create_far
                  then bad_forward far.forwarding_parameters
                  else if far.far_type == type_update_far
                  then bad_forward far.update_forwarding_parameters
                  else false))
    read none =
        forwarded-panics far info (far.far_type == type_create_far)
          (far.far_type == type_update_far)
    read (some []) = refl
    read (some (a ∷ rest)) =
        forwarded-panics far (record info { action = a }) (far.far_type == type_create_far)
          (far.far_type == type_update_far)

pub compose_far_info-returns :
    (far : FarIe) (info : FarInfo) → bad_far far ≡ false → compose_far_info far info ≢ panic
compose_far_info-returns far info h e =
    ground (arith, compose_far_info-panics far info ∙ h, ap panics e)
