-- ===== src/Core/Display/Sources.antt =====
-- When the printing of a session request in cmd/core/display_utils.go crashes.
use eupf.Base.{
  ◌≡◌, ◌≢◌, refl, Bool, true, false, ◌||◌, not, String, Option, none, some, List, [], ◌∷◌, arith,
  ◌==◌, inl, inr, Bool-cases,
}
use eupf.Base.Outcome.{Outcome, ok, err, panic}
use eupf.Base.Outcome.Pure.{◌>>=◌}
use eupf.Core.Ie.{ChildIe, PdrIe, RuleIes, find_ie, type_source_interface}
use eupf.Core.Display.{
  source_lines, pdi_lines, display_pdi, display_pdr, display_pdrs,
  print_session_establishment_request, print_session_modification_request,
}

-- A crash if the condition holds, and a message otherwise.
abbrev pub CrashesIf : {A : Type 0} → Bool → Outcome A → Type 0
CrashesIf true panic = Unit {0}
CrashesIf false (ok _) = Unit {0}
CrashesIf _ _ = ⊥

CrashesIf-bind :
    {A B : Type 0} (b c : Bool) (m : Outcome A) (f : A → Outcome B)
    → CrashesIf b m
    → ((a : A) → CrashesIf c (f a))
    → CrashesIf (b || c) (m >>= f)
CrashesIf-bind true c panic f h k = tt
CrashesIf-bind false c (ok a) f h k = k a
CrashesIf-bind true c (ok a) f h k = absurd h
CrashesIf-bind true c (err e) f h k = absurd h
CrashesIf-bind false c (err e) f h k = absurd h
CrashesIf-bind false c panic f h k = absurd h

CrashesIf-then :
    {A B : Type 0} (b : Bool) (m : Outcome A) (f : A → B)
    → CrashesIf b m
    → CrashesIf b (m >>= (λ a. ok (f a)))
CrashesIf-then true panic f h = tt
CrashesIf-then false (ok a) f h = tt
CrashesIf-then true (ok a) f h = absurd h
CrashesIf-then true (err e) f h = absurd h
CrashesIf-then false (err e) f h = absurd h
CrashesIf-then false panic f h = absurd h

abbrev names_source : List ChildIe → Bool
names_source [] = false
names_source (x ∷ xs) = (x.ie_type == type_source_interface) || names_source xs

abbrev pdi_lacks : Option (List ChildIe) → Bool
pdi_lacks none = false
pdi_lacks (some pdi) = not (names_source pdi)

-- The PDR has a PDI, and no Source Interface in it.
abbrev pub lacks_source : PdrIe → Bool
lacks_source pdr = pdi_lacks pdr.pdi

abbrev pub some_lack : List PdrIe → Bool
some_lack [] = false
some_lack (p ∷ ps) = lacks_source p || some_lack ps

source_lines-CrashesIf :
    (pdi : List ChildIe)
    → CrashesIf (not (names_source pdi)) (source_lines (find_ie type_source_interface pdi))
unfolding find_ie
source_lines-CrashesIf [] = tt
source_lines-CrashesIf (x ∷ xs) = elim (Bool-cases (x.ie_type == type_source_interface)) [
  | inl e ↦ rw e tt
  | inr e ↦ rw e (source_lines-CrashesIf xs)
]

pdi_lines-CrashesIf : (pdi : Option (List ChildIe)) → CrashesIf (pdi_lacks pdi) (pdi_lines pdi)
unfolding display_pdi
pdi_lines-CrashesIf none = tt
pdi_lines-CrashesIf (some pdi) =
    CrashesIf-then (not (names_source pdi)) (source_lines (find_ie type_source_interface pdi)) _
      (source_lines-CrashesIf pdi)

display_pdr-CrashesIf :
    (verb : String) (pdr : PdrIe) → CrashesIf (lacks_source pdr) (display_pdr verb pdr)
unfolding display_pdr
display_pdr-CrashesIf verb pdr =
    CrashesIf-then (lacks_source pdr) (pdi_lines pdr.pdi) _ (pdi_lines-CrashesIf pdr.pdi)

display_pdrs-CrashesIf :
    (verb : String) (pdrs : List PdrIe) → CrashesIf (some_lack pdrs) (display_pdrs verb pdrs)
unfolding display_pdrs
display_pdrs-CrashesIf verb [] = tt
display_pdrs-CrashesIf verb (pdr ∷ pdrs) =
    CrashesIf-bind (lacks_source pdr) (some_lack pdrs) (display_pdr verb pdr) _
      (display_pdr-CrashesIf verb pdr)
      (λ lines.
        CrashesIf-then (some_lack pdrs) (display_pdrs verb pdrs) _
          (display_pdrs-CrashesIf verb pdrs))

pub establishment-CrashesIf :
    (r : RuleIes) → CrashesIf (some_lack r.create_pdrs) (print_session_establishment_request r)
unfolding print_session_establishment_request
establishment-CrashesIf r =
    CrashesIf-then (some_lack r.create_pdrs) (display_pdrs "Create" r.create_pdrs) _
      (display_pdrs-CrashesIf "Create" r.create_pdrs)

pub modification-CrashesIf :
    (r : RuleIes)
    → CrashesIf
        (some_lack r.create_pdrs || (some_lack r.update_pdrs || some_lack r.remove_pdrs))
        (print_session_modification_request r)
unfolding print_session_modification_request
modification-CrashesIf r =
    CrashesIf-bind (some_lack r.create_pdrs) (some_lack r.update_pdrs || some_lack r.remove_pdrs)
      (display_pdrs "Create" r.create_pdrs) _ (display_pdrs-CrashesIf "Create" r.create_pdrs)
      (λ created.
        CrashesIf-bind (some_lack r.update_pdrs) (some_lack r.remove_pdrs)
          (display_pdrs "Update" r.update_pdrs) _ (display_pdrs-CrashesIf "Update" r.update_pdrs)
          (λ updated.
            CrashesIf-then (some_lack r.remove_pdrs) (display_pdrs "Remove" r.remove_pdrs) _
              (display_pdrs-CrashesIf "Remove" r.remove_pdrs)))

pub CrashesIf-panics :
    {A : Type 0} (b : Bool) (m : Outcome A) → CrashesIf b m → b ≡ true → m ≡ panic
CrashesIf-panics true panic h e = refl
CrashesIf-panics true (ok a) h e = absurd h
CrashesIf-panics true (err x) h e = absurd h
CrashesIf-panics false m h e = ground (arith, e)

pub CrashesIf-returns :
    {A : Type 0} (b : Bool) (m : Outcome A) → CrashesIf b m → b ≡ false → m ≢ panic
CrashesIf-returns false (ok a) h e = λ k. ground (arith, k)
CrashesIf-returns false panic h e = absurd h
CrashesIf-returns false (err x) h e = absurd h
CrashesIf-returns true m h e = ground (arith, e)
