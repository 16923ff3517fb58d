-- ===== src/Repository/Memory/Filter.antt =====
-- `find_filtered`: its test with its early returns, and its pages.
use mathlib.Core.Path.{fun_ext}
use vfobs.Prelude.{◌≡◌, ◌∙◌, ap, ◌↔◌, Option, Bool, true, arith, take}
use vfobs.Prelude.Int.{ℤ}
use vfobs.Events.Platform.{Platform}
use vfobs.Events.Base.{Event}
use vfobs.Repository.Model.{EventFilter, page_size}
use vfobs.Repository.Log.{hits}
use vfobs.Repository.Log.Filter.{satisfies, Satisfies, satisfies_iff}
use vfobs.Repository.Memory.{Repo, find_filtered, filter_pred}
use vfobs.Repository.Memory.Sorted.{IsWf}
use vfobs.Repository.Memory.Scan.{scan_lem}

module _ {P : Platform} where
  filter_pred-satisfies : (f : EventFilter) (ev : Event P) → filter_pred f ev ≡ satisfies f ev
  unfolding filter_pred satisfies
  filter_pred-satisfies f ev = ground arith

  -- The test of `find_filtered` passes exactly the events that have every value asked for.
  pub filter_pred_iff :
      (f : EventFilter) (ev : Event P) → (filter_pred f ev ≡ true) ↔ Satisfies f ev
  filter_pred_iff f ev = rw (filter_pred-satisfies f ev) (satisfies_iff f ev)

  pub find_filtered_lem :
      (r : Repo P) (f : EventFilter) (from_id : Option ℤ) (limit : ℤ)
      → IsWf r
      → find_filtered r f from_id limit
        ≡ take (page_size limit) (hits (satisfies f) from_id r.events)
  find_filtered_lem r f from_id limit w =
      unfold find_filtered in
      (scan_lem r (filter_pred f) from_id limit w
        ∙ ap (λ (p : Event P → Bool). take (page_size limit) (hits p from_id r.events))
            (fun_ext (filter_pred-satisfies f)))
