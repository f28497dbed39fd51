-- ===== src/Core/Handlers/Apply/Returns.antt =====
-- The rules of a Session Establishment Request that does not hold one of the IEs on which
-- cmd/core/pfcp_session_handlers.go crashes.
use eupf.Base.{◌++◌, ℕ, ◌≡◌, Bool, false, Option, none, some, [], ◌∷◌}
use eupf.Base.Outcome.{pdr_id_missing}
use eupf.Base.Outcome.Safe.{
  any_of, Safe-bind, Safe-throw, Safe-lift, Safe-modify, Safe-for_each, Safe-for_each_if,
}
use eupf.Base.MapOrder.{MapOrder}
use eupf.Ebpf.Types.{zero_far_info}
use eupf.Ebpf.Controller.{ForwardingPlaneController}
use eupf.Core.Ie.{FarIe, QerIe, UrrIe, PdrIe, RuleIes}
use eupf.Core.Display.{print_session_establishment_request}
use eupf.Core.Display.Sources.{some_lack, establishment-CrashesIf, CrashesIf-returns}
use eupf.Core.Session.{zero_spdr_info, SqerInfo}
use eupf.Core.Session as Session
use eupf.Core.Rules.Crashes.{bad_far, compose_far_info-returns}
use eupf.Core.PdrContext.Returns.{Creates, Sound, plane-Sound, extract_pdr-Sound, apply_pdr-Sound}
use eupf.Core.Handlers.Apply.{
  create_far, create_qer, create_qer_of, create_urr, create_urr_of, create_pdr, create_pdr_of,
  create_rules,
}

module _ (plane : ForwardingPlaneController) (o : MapOrder) (feature_ueip : Bool)
    (creates : Creates plane) where
  open plane use {Plane}

  create_far-Sound :
      (far : FarIe) → bad_far far ≡ false → Sound (create_far plane o feature_ueip far)
  unfolding create_far
  create_far-Sound far h =
      Safe-bind (λ _. Unit {0}) _ _
        (Safe-lift (λ _. Unit {0}) _ (compose_far_info-returns far zero_far_info h))
        (λ info.
          Safe-bind (λ _. Unit {0}) _ _ (plane-Sound _ (creates.creates_far info))
            (λ id. Safe-modify (λ _. Unit {0}) _ (λ w i. i)))

  create_qer-Sound : (qer : QerIe) → Sound (create_qer plane o feature_ueip qer)
  unfolding create_qer
  create_qer-Sound qer = at qer.qer_id
    where
      at : (id : Option ℕ) → Sound (create_qer_of plane o feature_ueip qer id)
      at none = Safe-throw (λ _. Unit {0}) _
      at (some id) =
          Safe-bind (λ _. Unit {0}) _ _ (plane-Sound _ (creates.creates_qer _))
            (λ internal. Safe-modify (λ _. Unit {0}) _ (λ w i. i))

  create_urr-Sound : (urr : UrrIe) → Sound (create_urr plane o feature_ueip urr)
  unfolding create_urr
  create_urr-Sound urr = at urr.urr_id
    where
      at : (id : Option ℕ) → Sound (create_urr_of plane o feature_ueip urr id)
      at none = Safe-throw (λ _. Unit {0}) _
      at (some id) =
          Safe-bind (λ _. Unit {0}) _ _ (plane-Sound _ (creates.creates_urr _))
            (λ internal. Safe-modify (λ _. Unit {0}) _ (λ w i. i))

  create_pdr-Sound : (pdr : PdrIe) → Sound (create_pdr plane o feature_ueip pdr)
  unfolding create_pdr
  create_pdr-Sound pdr = at pdr.ie_pdr_id
    where
      at : (id : Option ℕ) → Sound (create_pdr_of plane o feature_ueip pdr id)
      at none = Safe-throw (λ _. Unit {0}) pdr_id_missing
      at (some id) =
          Safe-bind (λ _. Unit {0}) _ _
            (extract_pdr-Sound plane o feature_ueip creates pdr
              (record zero_spdr_info { pdr_id = id }))
            (λ info.
              Safe-bind (λ _. Unit {0}) _ _
                (Safe-modify (λ _. Unit {0})
                  (λ w. record w { session = Session.put_pdr info.pdr_id info w.session })
                  (λ w i. i))
                (λ u.
                  Safe-bind (λ _. Unit {0}) _ _ (apply_pdr-Sound plane o feature_ueip creates info)
                    (λ v.
                      Safe-modify (λ _. Unit {0})
                        (λ w. record w { created_pdrs = w.created_pdrs ++ (info ∷ []) })
                        (λ w i. i))))

  pub create_rules-Sound :
      (r : RuleIes)
      → some_lack r.create_pdrs ≡ false
      → any_of bad_far r.create_fars ≡ false
      → Sound (create_rules plane o feature_ueip r)
  unfolding create_rules
  create_rules-Sound r sources fars =
      Safe-bind (λ _. Unit {0}) _ _
        (Safe-lift (λ _. Unit {0}) (print_session_establishment_request r)
          (CrashesIf-returns (some_lack r.create_pdrs) (print_session_establishment_request r)
            (establishment-CrashesIf r) sources))
        (λ printed.
          Safe-bind (λ _. Unit {0}) _ _
            (Safe-for_each_if (λ _. Unit {0}) bad_far (create_far plane o feature_ueip)
              r.create_fars fars create_far-Sound)
            (λ a.
              Safe-bind (λ _. Unit {0}) _ _
                (Safe-for_each (λ _. Unit {0}) (create_qer plane o feature_ueip) r.create_qers
                  create_qer-Sound)
                (λ b.
                  Safe-bind (λ _. Unit {0}) _ _
                    (Safe-for_each (λ _. Unit {0}) (create_urr plane o feature_ueip) r.create_urrs
                      create_urr-Sound)
                    (λ c.
                      Safe-for_each (λ _. Unit {0}) (create_pdr plane o feature_ueip) r.create_pdrs
                        create_pdr-Sound))))
