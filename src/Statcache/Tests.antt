-- ===== src/Statcache/Tests.antt =====
-- A path whose lstat result was added twice, and its stat result once.
use spindle.Prelude.{List, [], ◌∷◌, none, some, ◌≡◌, refl, str_eq}
use spindle.Relay.{metadata_stat, metadata_lstat}
use spindle.Statcache.{
  StatResult, add_results, lookup_stat_cache, first_result, empty_stat_cache,
  lookup_stat_cache-add_results,
}

abbrev results : List StatResult
results =
    (97 ∷ [], (some (98 ∷ []), metadata_lstat))
    ∷ (97 ∷ [], (none, metadata_stat))
    ∷ (97 ∷ [], (some (99 ∷ []), metadata_lstat))
    ∷ []

lstat_first :
    lookup_stat_cache (97 ∷ []) metadata_lstat (add_results results empty_stat_cache)
    ≡ some (some (98 ∷ []))
unfolding lookup_stat_cache add_results str_eq
lstat_first = refl

lookup_stat_cache-add_results_example :
    lookup_stat_cache (97 ∷ []) metadata_lstat (add_results results empty_stat_cache)
    ≡ first_result (97 ∷ []) metadata_lstat results
lookup_stat_cache-add_results_example =
    lookup_stat_cache-add_results (97 ∷ []) metadata_lstat results
