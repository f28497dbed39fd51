-- ===== src/Tests/Creates.antt =====
-- The creations of the concrete forwarding plane do not panic, and a request that it answers.
use eupf.Base.{ℕ, ◌≡◌, Option, none, some, inl, inr, Bool-cases, ltb, refl, true, string_eq, nat_eq}
use eupf.Base.Outcome.Safe.{Safe, Calm}
use eupf.Base.MapOrder.{kept_order}
use eupf.Ebpf.Types.{FarInfo, QerInfo, UrrInfo}
use eupf.Ebpf.IdTracker.{get_next}
use eupf.Ebpf.Objects.{BpfObjects}
use eupf.Ebpf.Objects as Objects
use eupf.Core.Ie.{find_ie}
use eupf.Core.PdrContext.Returns.{Creates}
use eupf.Core.Handlers.Establishment.{handle_session_establishment_request}
use eupf.Core.Handlers.Effects.Replies.{Replies, establishment-Replies}
use eupf.Tests.Libraries.{libraries, first}
use eupf.Tests.Connections.{plane, establishment, holding}

new_far-Safe : (info : FarInfo) → Safe (λ _. Unit {0}) (Objects.new_far libraries info)
unfolding Objects.new_far Objects.get_next_far get_next
new_far-Safe info = record { safe = λ s i. at s (first s.far_id_tracker.bitmap) refl }
  where
    at :
        (s : BpfObjects libraries) (found : Option ℕ)
        → first s.far_id_tracker.bitmap ≡ found
        → Calm (λ _. Unit {0}) (Objects.new_far libraries info s)
    at s none h = rw (h, Calm, Objects.new_far) tt
    at s (some id) h = elim (Bool-cases (ltb id 4)) [
      | inl e ↦ rw (h, Calm, Objects.new_far) (rw (e, Calm, Objects.new_far) tt)
      | inr e ↦ rw (h, Calm, Objects.new_far) (rw (e, Calm, Objects.new_far) tt)
    ]

new_qer-Safe : (info : QerInfo) → Safe (λ _. Unit {0}) (Objects.new_qer libraries info)
unfolding Objects.new_qer Objects.get_next_qer get_next
new_qer-Safe info = record { safe = λ s i. at s (first s.qer_id_tracker.bitmap) refl }
  where
    at :
        (s : BpfObjects libraries) (found : Option ℕ)
        → first s.qer_id_tracker.bitmap ≡ found
        → Calm (λ _. Unit {0}) (Objects.new_qer libraries info s)
    at s none h = rw (h, Calm, Objects.new_qer) tt
    at s (some id) h = elim (Bool-cases (ltb id 4)) [
      | inl e ↦ rw (h, Calm, Objects.new_qer) (rw (e, Calm, Objects.new_qer) tt)
      | inr e ↦ rw (h, Calm, Objects.new_qer) (rw (e, Calm, Objects.new_qer) tt)
    ]

new_urr-Safe : (info : UrrInfo) → Safe (λ _. Unit {0}) (Objects.new_urr libraries info)
unfolding Objects.new_urr Objects.get_next_urr get_next
new_urr-Safe info = record { safe = λ s i. at s (first s.urr_id_tracker.bitmap) refl }
  where
    at :
        (s : BpfObjects libraries) (found : Option ℕ)
        → first s.urr_id_tracker.bitmap ≡ found
        → Calm (λ _. Unit {0}) (Objects.new_urr libraries info s)
    at s none h = rw (h, Calm, Objects.new_urr) tt
    at s (some id) h = elim (Bool-cases (ltb id 4)) [
      | inl e ↦ rw (h, Calm, Objects.new_urr) (rw (e, Calm, Objects.new_urr) tt)
      | inr e ↦ rw (h, Calm, Objects.new_urr) (rw (e, Calm, Objects.new_urr) tt)
    ]

plane-Creates : Creates plane
unfolding Objects.put_pdr_uplink Objects.put_pdr_downlink Objects.put_downlink_pdr_ip6
plane-Creates = record {
  creates_far = new_far-Safe;
  creates_qer = new_qer-Safe;
  creates_urr = new_urr-Safe;
  puts_uplink = λ teid p. record { safe = λ s i. tt };
  puts_downlink = λ ip p. record { safe = λ s i. tt };
  puts_downlink_ip6 = λ ip p. record { safe = λ s i. tt };
}

establishment-Replies_example :
    Replies (handle_session_establishment_request plane kept_order true establishment "smf" holding)
unfolding find_ie
establishment-Replies_example =
    establishment-Replies plane kept_order true plane-Creates establishment "smf" holding refl refl
