-- ===== src/Zallocrout/Tests/Calls.antt =====
-- The counters, the cache and the contexts of the router on concrete inputs.
use go_kitbox.Prelude.{
  ℕ, ◌+◌, ◌%◌, ◌^◌, ◌≡◌, ◌⊎◌, refl, true, false, [], ◌∷◌, List, none, some, length, take, replicate,
  arith,
}
use go_kitbox.Zallocrout.Tree.{Param}
use go_kitbox.Zallocrout.Cache.{
  CacheEntry, ShardedMap, new_sharded_map, load_with_method_path, store_with_method_path,
}
use go_kitbox.Zallocrout.Cache.Stores.{load-store}
use go_kitbox.Zallocrout.Metrics.{
  Collector, zero_metrics, new_collector, increment_cache_hits, increment_cache_misses,
  increment_total_matches, flush,
}
use go_kitbox.Zallocrout.Metrics.Flushed.{flush_counts, counted, hits, misses, matches}
use go_kitbox.Zallocrout.Context.{
  RouteContext, max_values, no_param, acquire_context, get_param, get_value, set_value,
}
use go_kitbox.Zallocrout.Context.Fresh.{
  IsContext, first_value, or_last, acquire_context_fresh, get_value-set_value,
}
use go_kitbox.Zallocrout.Tests.Codes.{codes}

abbrev entry : CacheEntry ℕ ℕ
entry = record {
  handler = 7;
  middlewares = [];
  params = (codes "id", codes "42") ∷ [];
  timestamp = 0;
}

abbrev empty : ShardedMap ℕ ℕ
empty = new_sharded_map

load-store_example :
    load_with_method_path length
      (codes "GET")
      (codes "/a")
      (store_with_method_path length (codes "GET") (codes "/a") entry 5 empty)
    ≡ some (record entry { timestamp = 5 })
unfolding new_sharded_map
load-store_example = load-store length (codes "GET") (codes "/a") entry 5 empty refl

abbrev counters : Collector
counters = new_collector zero_metrics

flush_counts_example :
    ((flush (increment_cache_hits 24 counters)).global.cache_hits
      ≡ (counted (λ m. m.cache_hits) hits counters + 1) % 2 ^ 64)
    × ((flush (increment_cache_misses 24 counters)).global.cache_misses
        ≡ (counted (λ m. m.cache_misses) misses counters + 1) % 2 ^ 64)
    × ((flush (increment_total_matches 24 counters)).global.total_matches
        ≡ (counted (λ m. m.total_matches) matches counters + 1) % 2 ^ 64)
    × ((flush (flush counters)).global.cache_hits ≡ (flush counters).global.cache_hits)
    × ((flush (flush counters)).global.cache_misses ≡ (flush counters).global.cache_misses)
    × ((flush (flush counters)).global.total_matches ≡ (flush counters).global.total_matches)
unfolding new_collector
flush_counts_example = flush_counts 24 counters (record {
  sixteen = refl;
  hits_fit = omega arith;
  misses_fit = omega arith;
  matches_fit = omega arith;
})

abbrev used : RouteContext ℕ ℕ
used = record {
  parent = none;
  param_pairs = replicate 32 (codes "id", codes "old");
  param_count = 0;
  value_pairs = replicate 6 (codes "user", some 1);
  value_count = 1;
}

used-IsContext : IsContext used
used-IsContext = record { all_params = refl; all_values = refl; values_fit = omega arith }

abbrev found_params : List Param
found_params = (codes "id", codes "42") ∷ replicate 31 no_param

acquire_context_fresh_example :
    (get_param (codes "id") (acquire_context used 3 found_params 1)
      ≡ first_value (codes "id") (take 1 found_params))
    × (get_value (codes "id") (acquire_context used 3 found_params 1) ≡ none)
acquire_context_fresh_example =
    acquire_context_fresh used 3 found_params 1 (codes "id") used-IsContext refl (omega arith)

get_value-set_value_example :
    ((1 ≡ max_values) × (set_value (codes "user") (some 2) used ≡ (used, false)))
    ⊎ (((set_value (codes "user") (some 2) used).1 ≡ true)
        × (get_value (codes "user") (set_value (codes "user") (some 2) used).0
            ≡ or_last (codes "user") (codes "user") (some 2) (get_value (codes "user") used)))
get_value-set_value_example =
    get_value-set_value (codes "user") (codes "user") (some 2) used used-IsContext
