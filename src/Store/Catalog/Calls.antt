-- ===== src/Store/Catalog/Calls.antt =====
-- Calls that change the tables of models, in any order.
use relay_scope.Base.{ℕ, Option, List, [], ◌∷◌}
use relay_scope.Base.Texts.{Text}
use relay_scope.Domain.{Collection}
use relay_scope.Matcher.{CompiledRule}
use relay_scope.Store.Catalog.{Catalog}
use relay_scope.Store.Catalog.Collect.{apply_collection, remove_raw_models}
use relay_scope.Store.Catalog.Matches.{refresh_all_matches, refresh_matches_for_raw_models}

pub data CatalogCall : Type 0 where
  collect : Option (Text → Text) → Collection → CatalogCall
  block : ℕ → List Text → ℕ → CatalogCall
  refresh : Option (List CompiledRule) → ℕ → CatalogCall
  refresh_some : Option (List CompiledRule) → List ℕ → ℕ → CatalogCall

unfoldable pub run : CatalogCall → Catalog → Catalog
run (collect normalize col) c = (apply_collection normalize col c).0
run (block site names now) c = remove_raw_models site names now c
run (refresh engine now) c = (refresh_all_matches engine now c).0
run (refresh_some engine ids now) c = (refresh_matches_for_raw_models engine ids now c).0

unfoldable pub run_all : List CatalogCall → Catalog → Catalog
unfolding run
run_all [] c = c
run_all (x ∷ xs) c = run_all xs (run x c)
