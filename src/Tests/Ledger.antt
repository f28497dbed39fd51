-- ===== src/Tests/Ledger.antt =====
-- Rule IEs on the concrete plane, and the count of kernel ids that they keep.
use eupf.Base.{refl, List, [], ◌∷◌, arith, true, none, nat_eq}
use eupf.Base.Outcome.{for_each}
use eupf.Base.MapOrder.{kept_order}
use eupf.Base.Table.Total.{total}
use eupf.Ebpf.Types.{FarInfo}
use eupf.Ebpf.IdTracker.{new_id_tracker}
use eupf.Ebpf.Objects.{BpfObjects}
use eupf.Core.Session.{new_session}
use eupf.Core.Session as Session
use eupf.Base.Table.{lookup, insert, get_or}
use eupf.Ebpf.Objects as Objects
use eupf.Ebpf.IdTracker.{get_next}
use eupf.Core.Rules.{compose_far_info}
use eupf.Core.Work.{Work, start_work}
use eupf.Core.Handlers.Apply.{create_far, update_far, remove_far}
use eupf.Core.Handlers.Apply.Ledger.{IsLedger, Kept}
use eupf.Core.Handlers.Apply.FarSteps.{
  FarOp, creates, updates, removes, far_step, AllFit, far_steps-Kept,
}
use eupf.Tests.Libraries.{libraries, objects, objects-HasFarSize, bits-IsBitmap, array-IsArray}
use eupf.Tests.Connections.{far}

abbrev fresh : Work (BpfObjects libraries)
fresh = start_work objects (new_session 1 2) none

abbrev some_ops : List FarOp
some_ops = creates (far 1) ∷ creates (far 2) ∷ updates (far 1) ∷ removes (far 1) ∷ []

fresh-IsLedger : IsLedger libraries 4 fresh
unfolding new_session total
fresh-IsLedger = record {
  pool_sized = objects-HasFarSize;
  unique_fars = tt;
  stock-le = λ x. ground arith;
  held_below = λ x b. refl;
}

some_ops-AllFit :
    AllFit libraries bits-IsBitmap 4 (array-IsArray FarInfo) kept_order true some_ops fresh
unfolding new_session create_far update_far remove_far lookup insert Session.new_far
    Session.update_far Session.get_far get_or Objects.new_far Objects.get_next_far get_next
    Objects.update_far compose_far_info new_id_tracker
some_ops-AllFit = (refl, (refl, (λ h. ground (arith, h), (λ h. ground (arith, h), tt))))

far_steps-Kept_example :
    Kept libraries 4 fresh
      (for_each
        (far_step libraries bits-IsBitmap 4 (array-IsArray FarInfo) kept_order true)
        some_ops
        fresh).1
far_steps-Kept_example =
    far_steps-Kept libraries bits-IsBitmap 4 (array-IsArray FarInfo) kept_order true some_ops fresh
      fresh-IsLedger some_ops-AllFit
