-- ===== src/Zallocrout/Metrics.antt =====
-- pkg/zallocrout/metrics.go: the counters of a router, and the local ones that are added to them later.
-- The index that the address of a local variable gives is an argument. The counters have 64 bits. The
-- rate of cache hits is a float and left out.
pub mod Flushed
use go_kitbox.Prelude.{
  ℕ, zero, suc, ◌+◌, ◌%◌, ◌^◌, Bool, true, false, List, [], ◌∷◌, get_or, set, replicate, ltb,
  if◌then◌else◌,
}

pub record RouterMetrics : Type 0 where
  pub cache_hits : ℕ
  pub cache_misses : ℕ
  pub static_routes : ℕ
  pub param_routes : ℕ
  pub wildcard_routes : ℕ
  pub total_matches : ℕ

pub record LocalCounter : Type 0 where
  pub cache_hits : ℕ
  pub cache_misses : ℕ
  pub total_matches : ℕ

pub record Collector : Type 0 where
  pub global : RouterMetrics
  pub locals : List LocalCounter
  pub enabled : Bool

abbrev pub add64 : ℕ → ℕ → ℕ
add64 a b = (a + b) % 2 ^ 64

abbrev pub zero_counter : LocalCounter
zero_counter = record { cache_hits = 0; cache_misses = 0; total_matches = 0 }

abbrev pub zero_metrics : RouterMetrics
zero_metrics = record {
  cache_hits = 0;
  cache_misses = 0;
  static_routes = 0;
  param_routes = 0;
  wildcard_routes = 0;
  total_matches = 0;
}

unfoldable pub new_collector : RouterMetrics → Collector
new_collector global = record {
  global = global;
  locals = replicate 16 zero_counter;
  enabled = true;
}

abbrev pub on_local : ℕ → (LocalCounter → LocalCounter) → Collector → Collector
on_local address f c =
    let idx = address % 16 in
    record c { locals = set c.locals idx (f (get_or c.locals idx zero_counter)) }

unfoldable pub increment_cache_hits : ℕ → Collector → Collector
increment_cache_hits address c =
    on_local address (λ l. record l { cache_hits = add64 l.cache_hits 1 }) c

unfoldable pub increment_cache_misses : ℕ → Collector → Collector
increment_cache_misses address c =
    on_local address (λ l. record l { cache_misses = add64 l.cache_misses 1 }) c

unfoldable pub increment_total_matches : ℕ → Collector → Collector
increment_total_matches address c =
    on_local address (λ l. record l { total_matches = add64 l.total_matches 1 }) c

-- A counter of which nothing was counted is not added.
abbrev pub add_some : ℕ → ℕ → ℕ
add_some total n = if ltb 0 n then add64 total n else total

unfoldable pub flush_local : LocalCounter → RouterMetrics → RouterMetrics
flush_local l m = record m {
  cache_hits = add_some m.cache_hits l.cache_hits;
  cache_misses = add_some m.cache_misses l.cache_misses;
  total_matches = add_some m.total_matches l.total_matches;
}

-- The loop of flush: each local counter is added and set to zero.
unfoldable pub flush_loop : List LocalCounter → RouterMetrics → List LocalCounter × RouterMetrics
unfolding flush_local
flush_loop [] m = ([], m)
flush_loop (l ∷ ls) m =
    let (rest, m') = flush_loop ls (flush_local l m) in (zero_counter ∷ rest, m')

unfoldable pub flush : Collector → Collector
unfolding flush_loop
flush c =
    let (locals, global) = flush_loop c.locals c.global in
    record c { locals = locals; global = global }

unfoldable pub enable : Collector → Collector
enable c = record c { enabled = true }

unfoldable pub disable : Collector → Collector
disable c = record c { enabled = false }

abbrev pub on_global : (RouterMetrics → RouterMetrics) → Collector → Collector
on_global f c = record c { global = f c.global }

unfoldable pub increment_static_routes : RouterMetrics → RouterMetrics
increment_static_routes m = record m { static_routes = add64 m.static_routes 1 }

unfoldable pub increment_param_routes : RouterMetrics → RouterMetrics
increment_param_routes m = record m { param_routes = add64 m.param_routes 1 }

unfoldable pub increment_wildcard_routes : RouterMetrics → RouterMetrics
increment_wildcard_routes m = record m { wildcard_routes = add64 m.wildcard_routes 1 }

-- Reset of the global counters; the local ones stay.
unfoldable pub reset : RouterMetrics → RouterMetrics
reset m = zero_metrics
