-- ===== src/CollectPlan/Counts.antt =====
-- Which stages `CalculateCollectStages` of AndroidSource/src/Components/NatTraverserClient.cpp gives.
use nat_data_collector.Prelude.{◌≡◌, true, is_some}
use nat_data_collector.CollectPlan.{OverrideStage, Objects}

module _ {J : Type 0} (objects : Objects J) where
  -- The fields of the override can be merged into any document, as those of an object can; the
  -- library throws for the default of an override, which is null.
  abbrev pub Merges : OverrideStage J → Type 0
  Merges o = (j : J) → is_some (objects.update_fields j o.override_fields) ≡ true
