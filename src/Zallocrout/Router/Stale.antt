-- ===== src/Zallocrout/Router/Stale.antt =====
-- What AddRoute does to the answers that are in the hot cache: nothing. (A route with middlewares
-- writes them into the array of the node, which an answer in the cache shares; that is left aside.)
use Prim.{Unit, tt}
use go_kitbox.Prelude.{ℕ, ◌≡◌, refl, ap, ◌∙◌, true, List, [], Option, some, inl, inr}
use mathlib.Core.Path.{subst}
use go_kitbox.Prelude.Run.{Run, ok, err, panic, Run-cases}
use go_kitbox.Zallocrout.Paths.{Bytes}
use go_kitbox.Zallocrout.Routes.{RouteError, validate_route}
use go_kitbox.Zallocrout.Metrics.{increment_cache_hits}
use go_kitbox.Zallocrout.Cache.{CacheEntry, load_with_method_path}
use go_kitbox.Zallocrout.Router.{Router, add_route, of_cache, match_route}

module _ {H M : Type 0} where
  abbrev KeepsCache : Router H M → Run RouteError (Router H M) → Type 0
  KeepsCache r (ok r') = (r'.hot_cache ≡ r.hot_cache) × (r'.enable_hot_cache ≡ r.enable_hot_cache)
  KeepsCache r (err e) = Unit
  KeepsCache r panic = Unit

  add_route-KeepsCache :
      (method path : Bytes) (handler : Option H) (middlewares : List M) (r : Router H M)
      → KeepsCache r (add_route method path handler middlewares r)
  unfolding add_route
  add_route-KeepsCache method path handler middlewares r = elim (Run-cases (validate_route path)) [
    | inl (u, good) ↦ rw (good, add_route) (refl, refl)
    | inr (inl (e, bad)) ↦ rw (bad, add_route) tt
    | inr (inr bad) ↦ rw (bad, add_route) tt
  ]

  -- An answer that is in the hot cache is served also after an AddRoute, whatever route without
  -- middlewares was added: also one for the same method and path, with another handler.
  pub match_route_stale :
      (hash : Bytes → ℕ) (now address : ℕ) (method path : Bytes) (handler : Option H)
      (r r' : Router H M) (m p : Bytes) (e : CacheEntry H M)
      → add_route method path handler [] r ≡ ok r'
      → r.enable_hot_cache ≡ true
      → load_with_method_path hash m p r.hot_cache ≡ some e
      → (q : Router H M) × (match_route hash now address m p r' ≡ ok (q, some (of_cache e)))
  unfolding match_route
  match_route_stale hash now address method path handler r r' m p e added on hit =
      let (cache, enabled) =
        subst (KeepsCache r) added (add_route-KeepsCache method path handler [] r) in
      let on' : r'.enable_hot_cache ≡ true = enabled ∙ on in
      let hit' : load_with_method_path hash m p r'.hot_cache ≡ some e =
        ap (load_with_method_path hash m p) cache ∙ hit in
      (record r' { metrics = increment_cache_hits address r'.metrics }, simp (on', hit'))
