-- ===== src/Zallocrout/Router.antt =====
-- Router of pkg/zallocrout/router.go. The methods are the keys of a list of trees. A call runs
-- undisturbed. Match takes the hash of the cache, the time and the address that its counters use; the
-- context that it fills is the list of its parameters, and its errors are those of the loops' fuel.
pub mod Found
pub mod Registered
pub mod Cached
pub mod Stale
use Prim.{Unit, tt}
use go_kitbox.Prelude.{
  ℕ, zero, suc, ◌+◌, Bool, true, false, not, ◌&&◌, List, [], ◌∷◌, Option, none, some, length, drop,
  ltb, ◌==◌, if◌then◌else◌,
}
use go_kitbox.Prelude.Keys.{nat_eq, list_eq}
use go_kitbox.Prelude.Maps.{lookup, insert}
use go_kitbox.Prelude.Run.{Run, ok, err, panic, ◌>>=◌}
use go_kitbox.Zallocrout.Paths.{
  Bytes, Stop, needs_normalization, normalize_path_bytes, split_path_to_compressed_segs,
  is_param_seg,
}
use go_kitbox.Zallocrout.Routes.{RouteError, validate_route}
use go_kitbox.Zallocrout.Tree.{
  NodeType, static_compressed, param_node, wildcard_node, Info, Node, Param, Arrived, MatchEnd,
  not_found, no_fuel, blank, leaf, info, set_handler_with_params, increment_hit_count, add_segs,
  walk, change_at,
}
use go_kitbox.Zallocrout.Tree.Adding.{key, field_at}
use go_kitbox.Zallocrout.Cache.{
  CacheEntry, ShardedMap, new_sharded_map, load_with_method_path, store_with_method_path, clear_map,
}
use go_kitbox.Zallocrout.Metrics.{
  RouterMetrics, Collector, new_collector, zero_metrics, on_global, increment_cache_hits,
  increment_cache_misses, increment_total_matches, increment_static_routes, increment_param_routes,
  increment_wildcard_routes, flush, reset, enable, disable,
}

abbrev pub hot_cache_threshold : ℕ
hot_cache_threshold = 100

pub record Router (Handler Middleware : Type 0) : Type 0 where
  pub roots : List (Bytes × Node Handler Middleware)
  pub hot_cache : ShardedMap Handler Middleware
  pub metrics : Collector
  pub enable_hot_cache : Bool

-- What Match returns of a route.
pub record Answer (Handler Middleware : Type 0) : Type 0 where
  pub handler : Handler
  pub middlewares : List Middleware
  pub params : List Param

-- The names of the parameters of a route
abbrev pub param_names_of : List Bytes → List Bytes
param_names_of [] = []
param_names_of (seg ∷ segs) =
    if is_param_seg seg then drop 1 seg ∷ param_names_of segs else param_names_of segs

abbrev pub count_route : NodeType → RouterMetrics → RouterMetrics
count_route static_compressed m = increment_static_routes m
count_route param_node m = increment_param_routes m
count_route wildcard_node m = increment_wildcard_routes m

abbrev pub from_stop : {A : Type 0} → Run Stop A → Run MatchEnd A
from_stop (ok a) = ok a
from_stop (err e) = err no_fuel
from_stop panic = panic

-- The path that Match splits: an empty result of the normalisation is no match.
unfoldable pub normalized : Bytes → Run MatchEnd Bytes
normalized path =
    if needs_normalization path
    then (from_stop (normalize_path_bytes path) >>= λ p.
        if length p == 0 then err not_found else ok p)
    else ok path

-- The names of the route replace those of the nodes, if there are as many.
abbrev pub rename : List Bytes → List Param → List Param
rename [] params = params
rename (name ∷ names) [] = []
rename (name ∷ names) ((k, v) ∷ params) = (name, v) ∷ rename names params

abbrev pub remap : List Bytes → List Param → List Param
remap names params =
    if ltb 0 (length names) && length names == length params then rename names params else params

module _ {H M : Type 0} where
  unfoldable pub new_router : Router H M
  new_router = record {
    roots = [];
    hot_cache = new_sharded_map;
    metrics = new_collector zero_metrics;
    enable_hot_cache = true;
  }

  abbrev pub root_or_new : Bytes → List (Bytes × Node H M) → Node H M
  root_or_new method roots = elim (lookup method roots) [ none ↦ leaf blank | some n ↦ n ]

  -- The node that the loop ends at is the one at the key of the route.
  unfoldable pub add_route :
      Bytes → Bytes → Option H → List M → Router H M → Run RouteError (Router H M)
  unfolding key
  add_route method path handler middlewares r = validate_route path >>= λ _.
      let segs = split_path_to_compressed_segs path in
      let root =
        add_segs segs (set_handler_with_params handler middlewares (param_names_of segs))
          (root_or_new method r.roots) in
      let typ = field_at (λ i. i.typ) static_compressed (key segs) root in
      ok (record r {
        roots = insert method root r.roots;
        metrics = on_global (count_route typ) r.metrics;
      })

  -- The steps of Match that only read the trees: the end of the loop, and the answer.
  unfoldable pub find_route :
      Bytes → Bytes → List (Bytes × Node H M) → Run MatchEnd (Arrived H M × Answer H M)
  find_route method path roots = normalized path >>= λ p. elim (lookup method roots) [
    | none ↦ err not_found
    | some root ↦ walk p (split_path_to_compressed_segs p) 1 [] root >>= λ a.
        elim (info a.current).handler [
          | none ↦ err not_found
          | some h ↦ ok (
            a,
            record {
              handler = h;
              middlewares = (info a.current).middlewares;
              params = remap (info a.current).param_names a.params;
            },
          )
        ]
  ]

  abbrev pub cached : Answer H M → CacheEntry H M
  cached a = record {
    handler = a.handler;
    middlewares = a.middlewares;
    params = a.params;
    timestamp = 0;
  }

  abbrev pub of_cache : CacheEntry H M → Answer H M
  of_cache e = record { handler = e.handler; middlewares = e.middlewares; params = e.params }

  -- The hit is counted at the node, and the answer of a hot node goes to the cache.
  unfoldable pub count_hit :
      (Bytes → ℕ) → ℕ → Bytes → Bytes → Arrived H M → Answer H M → Router H M → Router H M
  count_hit hash now method path a answer r =
      let hits = (increment_hit_count (info a.current)).hit_count in
      let roots =
        insert method (change_at a.trail increment_hit_count (root_or_new method r.roots))
          r.roots in
      if r.enable_hot_cache && not (info a.current).is_wildcard
      then record r {
        roots = roots;
        hot_cache =
            if ltb hot_cache_threshold hits
            then store_with_method_path hash method path (cached answer) now r.hot_cache
            else r.hot_cache;
      }
      else r

  -- After a miss, or with the cache switched off.
  unfoldable pub match_uncached :
      (Bytes → ℕ)
      → ℕ
      → ℕ
      → Bytes
      → Bytes
      → Router H M
      → Run MatchEnd (Router H M × Option (Answer H M))
  unfolding count_hit
  match_uncached hash now address method path r = elim (find_route method path r.roots) [
    | ok (a, answer) ↦
        let counted = record r { metrics = increment_total_matches address r.metrics } in
        ok (count_hit hash now method path a answer counted, some answer)
    | err e ↦ elim e [ not_found ↦ ok (r, none) | no_fuel ↦ err no_fuel ]
    | panic ↦ panic
  ]

  unfoldable pub match_route :
      (Bytes → ℕ)
      → ℕ
      → ℕ
      → Bytes
      → Bytes
      → Router H M
      → Run MatchEnd (Router H M × Option (Answer H M))
  match_route hash now address method path r =
      if r.enable_hot_cache
      then (elim (load_with_method_path hash method path r.hot_cache) [
        | some e ↦
            ok (record r { metrics = increment_cache_hits address r.metrics }, some (of_cache e))
        | none ↦
            match_uncached hash now address method path
              (record r { metrics = increment_cache_misses address r.metrics })
      ])
      else match_uncached hash now address method path r

  unfoldable pub enable_cache : Router H M → Router H M
  enable_cache r = record r { enable_hot_cache = true }

  unfoldable pub disable_cache : Router H M → Router H M
  disable_cache r = record r { enable_hot_cache = false }

  unfoldable pub clear_hot_cache : Router H M → Router H M
  clear_hot_cache r = record r { hot_cache = clear_map r.hot_cache }

  unfoldable pub metrics_of : Router H M → Router H M × RouterMetrics
  metrics_of r = let c = flush r.metrics in (record r { metrics = c }, c.global)

  unfoldable pub reset_metrics : Router H M → Router H M
  reset_metrics r = record r { metrics = on_global reset r.metrics }
