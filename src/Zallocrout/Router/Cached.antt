-- ===== src/Zallocrout/Router/Cached.antt =====
-- The hot cache of a router hides nothing: as long as no route is added, Match answers with the cache as
-- it would without.
use Prim.{Unit, tt}
use go_kitbox.Prelude.{
  ℕ, ◌≡◌, ◌⊎◌, refl, sym, ap, ap₂, ◌∙◌, true, false, not, ◌&&◌, List, [], ◌∷◌, Option, none, some,
  length-map, Option-cases, Bool-cases, either_branch, inl, inr,
}
use mathlib.Core.Path.{subst}
use go_kitbox.Prelude.Keys.{list_eq, list_beq, list_beq_eq, nat_eq}
use go_kitbox.Prelude.Maps.{lookup, insert, lookup-insert}
use go_kitbox.Prelude.Run.{Run, ok, err, panic, ◌>>=◌, Run-cases, Returns, returns, Returns-map}
use go_kitbox.Zallocrout.Paths.{Bytes, split_path_to_compressed_segs}
use go_kitbox.Zallocrout.Tree.{
  Info, Node, Step, Arrived, MatchEnd, not_found, blank, leaf, info, increment_hit_count, change_at,
  walk,
}
use go_kitbox.Zallocrout.Tree.Places.{node_at, on_child}
use go_kitbox.Zallocrout.Tree.Adding.{field_at}
use go_kitbox.Zallocrout.Tree.Hits.{field_at-change_at, Leads, walk-Leads}
use go_kitbox.Zallocrout.Metrics.{Collector, increment_total_matches, increment_cache_misses}
use go_kitbox.Zallocrout.Cache.{
  ShardedMap, CacheEntry, load_with_method_path, store_with_method_path, clear_map, empty_shard,
}
use go_kitbox.Zallocrout.Cache.Stores.{IsSharded, store-IsSharded, load-store_cases, load_cleared}
use go_kitbox.Zallocrout.Router.{
  Router, Answer, normalized, root_or_new, find_route, cached, of_cache, count_hit, match_uncached,
  match_route, clear_hot_cache,
}
use go_kitbox.Zallocrout.Router.Found.{
  root_field, view_of, view_answer, names_of, Gives, final, find_route-view, find_route_empty,
}
use go_kitbox.Zallocrout.Router.Registered.Covering.{answer_in}

module _ {H M : Type 0} where
  -- What Match answers without its cache.
  abbrev pub plain : Bytes → Bytes → List (Bytes × Node H M) → Option (Answer H M)
  plain method path roots = answer_in (find_route method path roots)

  gives_plain :
      (o : Option (Answer H M)) (r : Run MatchEnd (Arrived H M × Answer H M))
      → Gives o r
      → answer_in r ≡ o
  gives_plain none r g = ap answer_in g
  gives_plain (some a) r g = ap answer_in g.1

  ends :
      (o : Option (Answer H M)) (r : Run MatchEnd (Arrived H M × Answer H M))
      → Gives o r
      → ((p : Arrived H M × Answer H M) × (r ≡ ok p)) ⊎ (r ≡ err not_found)
  ends none r g = inr g
  ends (some a) r (there, e) = inl ((there, a), e)

  -- Trees in which Match reads the same give the same answers.
  same_plain :
      (method path : Bytes) (roots roots' : List (Bytes × Node H M))
      → view_of (lookup method roots') ≡ view_of (lookup method roots)
      → plain method path roots' ≡ plain method path roots
  same_plain method [] roots roots' e =
      ap answer_in (find_route_empty method roots' ∙ sym (find_route_empty method roots))
  same_plain method (b ∷ bs) roots roots' e =
      gives_plain _ (find_route method (b ∷ bs) roots') (find_route-view method b bs roots')
      ∙ ap (λ v. view_answer v (names_of (b ∷ bs))) e
      ∙ sym (gives_plain _ (find_route method (b ∷ bs) roots) (find_route-view method b bs roots))

  -- The node where Match ends lies in the tree of the method.
  abbrev There : Bytes → List (Bytes × Node H M) → Run MatchEnd (Arrived H M × Answer H M) → Type 0
  There method roots (ok (a, answer)) =
      (root : Node H M) × (lookup method roots ≡ some root)
      × (node_at a.trail root ≡ some a.current)
  There method roots (err e) = Unit
  There method roots panic = Unit

  Leads-There :
      (method : Bytes) (roots : List (Bytes × Node H M)) (root : Node H M)
      (r : Run MatchEnd (Arrived H M))
      → lookup method roots ≡ some root
      → Leads root r
      → There method roots (r >>= final)
  Leads-There method roots root (ok a) here h = elim (Option-cases (info a.current).handler) [
    | inl gone ↦ rw gone tt
    | inr (x, e) ↦ rw e (root, here, h)
  ]
  Leads-There method roots root (err e) here h = tt
  Leads-There method roots root panic here h = tt

  find_route-There :
      (method path : Bytes) (roots : List (Bytes × Node H M))
      → There method roots (find_route method path roots)
  unfolding find_route
  find_route-There method path roots = elim (Run-cases (normalized path)) [
    | inl (p, e) ↦ elim (Option-cases (lookup method roots)) [
      | inl gone ↦ rw (e, gone, find_route) tt
      | inr (root, here) ↦ subst (There method roots) (sym (rw (e, here, find_route) refl)) (
          Leads-There method roots root (walk p (split_path_to_compressed_segs p) 1 [] root) here
            (walk-Leads p (split_path_to_compressed_segs p) 1 [] root))
    ]
    | inr (inl (x, e)) ↦ rw (e, find_route) tt
    | inr (inr e) ↦ rw (e, find_route) tt
  ]

  -- The trees after a hit was counted.
  abbrev hit_roots : Bytes → Arrived H M → List (Bytes × Node H M) → List (Bytes × Node H M)
  hit_roots method a roots =
      insert method (change_at a.trail increment_hit_count (root_or_new method roots)) roots

  module _ (method : Bytes) (a : Arrived H M) (roots : List (Bytes × Node H M)) (root : Node H M)
      (here : lookup method roots ≡ some root) (there : node_at a.trail root ≡ some a.current) where
    hit_field :
        {X : Type 0} (f : Info H M → X) (d : X)
        → ((i : Info H M) → f (increment_hit_count i) ≡ f i)
        → (m : Bytes) (k : List Step)
        → root_field f d (lookup m (hit_roots method a roots)) k ≡ root_field f d (lookup m roots) k
    hit_field f d keeps m k =
        let tree : Node H M → Node H M = change_at a.trail increment_hit_count in
        let is_root : root_or_new method roots ≡ root = ap (on_child (leaf blank) (λ n. n)) here in
        ap (λ t. root_field f d t k)
          (lookup-insert method m (tree (root_or_new method roots)) roots)
        ∙ elim (Bool-cases (list_beq method m)) [
          | inl same ↦
              let at_m : lookup m roots ≡ some root =
                ap (λ x. lookup x roots) (sym (list_beq_eq method m same)) ∙ here in
              rw same (
                ap (λ n. field_at f d k (tree n)) is_root
                ∙ field_at-change_at f d increment_hit_count keeps a.trail k root a.current there
                ∙ sym (ap (λ t. root_field f d t k) at_m))
          | inr other ↦ rw other refl
        ]

    hit_view :
        (m : Bytes) → view_of (lookup m (hit_roots method a roots)) ≡ view_of (lookup m roots)
    unfolding increment_hit_count
    hit_view m = λ i. record {
      nodes = λ k. hit_field (λ _. true) false (λ _. refl) m k i;
      handlers = λ k. hit_field (λ x. x.handler) none (λ _. refl) m k i;
      chains = λ k. hit_field (λ x. x.middlewares) [] (λ _. refl) m k i;
      route_names = λ k. hit_field (λ x. x.param_names) [] (λ _. refl) m k i;
      node_names = λ k. hit_field (λ x. x.param_name) [] (λ _. refl) m k i;
    }

  module _ (hash : Bytes → ℕ) where
    -- Every entry of a cache is the answer that the trees give.
    abbrev pub Honest : List (Bytes × Node H M) → ShardedMap H M → Type 0
    Honest roots cache =
        IsSharded cache
        × ((m p : Bytes) (e : CacheEntry H M)
            → load_with_method_path hash m p cache ≡ some e
            → plain m p roots ≡ some (of_cache e))

    -- A call of Match keeps the cache honest, and what Match would answer without it.
    pub record Keeps (r r' : Router H M) : Type 0 where
      pub honest : Honest r'.roots r'.hot_cache
      pub same : (m p : Bytes) → plain m p r'.roots ≡ plain m p r.roots

    stored-Honest :
        (method path : Bytes) (answer : Answer H M) (now : ℕ) (roots : List (Bytes × Node H M))
        (cache : ShardedMap H M)
        → Honest roots cache
        → plain method path roots ≡ some answer
        → Honest roots (store_with_method_path hash method path (cached answer) now cache)
    stored-Honest method path answer now roots cache (sharded, entries) found = (
      store-IsSharded hash method path (cached answer) now cache sharded,
      λ m p e h.
          elim (load-store_cases hash method path (cached answer) now cache m p e sharded h) [
            | inl (at_m, at_p, new) ↦
                ap₂ (λ x y. plain x y roots) (sym at_m) (sym at_p)
                ∙ found
                ∙ ap (λ x. some (of_cache x)) new
            | inr old ↦ entries m p e old
          ],
    )

    moved-Honest :
        (roots roots' : List (Bytes × Node H M)) (cache : ShardedMap H M)
        → ((m p : Bytes) → plain m p roots' ≡ plain m p roots)
        → Honest roots cache
        → Honest roots' cache
    moved-Honest roots roots' cache same (sharded, entries) =
        (sharded, λ m p e h. same m p ∙ entries m p e h)

    count_hit-Keeps :
        (now : ℕ) (method path : Bytes) (a : Arrived H M) (answer : Answer H M) (r : Router H M)
        → Honest r.roots r.hot_cache
        → find_route method path r.roots ≡ ok (a, answer)
        → Keeps r (count_hit hash now method path a answer r)
    unfolding count_hit
    count_hit-Keeps now method path a answer r honest found =
        let (root, here, there) =
          subst (There method r.roots) found (find_route-There method path r.roots) in
        let same : (m p : Bytes) → plain m p (hit_roots method a r.roots) ≡ plain m p r.roots =
          λ m p.
            same_plain m p r.roots (hit_roots method a r.roots)
              (hit_view method a r.roots root here there m) in
        let moved = moved-Honest r.roots (hit_roots method a r.roots) r.hot_cache same honest in
        either_branch (Keeps r) (r.enable_hot_cache && not (info a.current).is_wildcard)
          (record {
            honest =
                either_branch (Honest (hit_roots method a r.roots)) _
                  (stored-Honest method path answer now _ r.hot_cache moved
                    (same method path ∙ ap answer_in found))
                  moved;
            same = same;
          })
          (record { honest = honest; same = λ m p. refl })

    find_ends :
        (method path : Bytes) (roots : List (Bytes × Node H M))
        → ((p : Arrived H M × Answer H M) × (find_route method path roots ≡ ok p))
          ⊎ (find_route method path roots ≡ err not_found)
    find_ends method [] roots = inr (find_route_empty method roots)
    find_ends method (b ∷ bs) roots = ends _ _ (find_route-view method b bs roots)

    -- What a call of Match returns: the answer without the cache, and an honest router.
    abbrev pub Answers : Bytes → Bytes → Router H M → Router H M × Option (Answer H M) → Type 0
    Answers method path r q = Keeps r q.0 × (q.1 ≡ plain method path r.roots)

    -- The counters do not matter.
    recounted :
        (method path : Bytes) (r : Router H M) (c : Collector)
        (q : Router H M × Option (Answer H M))
        → Answers method path (record r { metrics = c }) q
        → Answers method path r q
    recounted method path r c q (k, e) = (record { honest = k.honest; same = k.same }, e)

    match_uncached-Answers :
        (now address : ℕ) (method path : Bytes) (r : Router H M)
        → Honest r.roots r.hot_cache
        → Returns (Answers method path r) (match_uncached hash now address method path r)
    unfolding match_uncached
    match_uncached-Answers now address method path r honest = elim (find_ends method path r.roots) [
      | inl ((a, answer), found) ↦
          let r1 : Router H M = record r { metrics = increment_total_matches address r.metrics } in
          let kept = count_hit-Keeps now method path a answer r1 honest found in
          rw (found, match_uncached)
            (returns (record { honest = kept.honest; same = kept.same }, sym (ap answer_in found)))
      | inr gone ↦
          rw (gone, match_uncached)
            (returns (record { honest = honest; same = λ m p. refl }, sym (ap answer_in gone)))
    ]

    -- As long as every entry of the hot cache is the answer of the trees, a call of Match, with the cache
    -- on or off, whatever the hash function, the time and the method and path: it neither panics nor
    -- runs on, answers as it would without the cache, and leaves the entries of the cache, an entry that
    -- it stores included, and the answers of the trees as they should be for the next call.
    pub match_route-Answers :
        (now address : ℕ) (method path : Bytes) (r : Router H M)
        → Honest r.roots r.hot_cache
        → Returns (Answers method path r) (match_route hash now address method path r)
    unfolding match_route
    match_route-Answers now address method path r honest =
        either_branch (Returns (Answers method path r)) r.enable_hot_cache
          (elim (Option-cases (load_with_method_path hash method path r.hot_cache)) [
            | inl miss ↦
                let c = increment_cache_misses address r.metrics in
                rw miss (
                  Returns-map (recounted method path r c) (
                    match_uncached-Answers now address method path (record r { metrics = c })
                      honest))
            | inr (e, hit) ↦ rw hit (
                returns (
                  record { honest = honest; same = λ m p. refl },
                  sym (honest.1 method path e hit),
                ))
          ])
          (match_uncached-Answers now address method path r honest)

    pub cleared-Honest :
        (roots : List (Bytes × Node H M)) (cache : ShardedMap H M)
        → IsSharded cache
        → Honest roots (clear_map cache)
    unfolding clear_map
    cleared-Honest roots cache sharded = (
      length-map cache (λ _. empty_shard) ∙ sharded,
      λ m p e h. cc (sym (load_cleared hash m p cache) ∙ h),
    )

    -- A router whose cache was emptied, whatever was in it, also answers that no longer held: the next
    -- call of Match neither panics nor runs on, and answers as it would without the cache.
    pub clear_hot_cache-Answers :
        (now address : ℕ) (method path : Bytes) (r : Router H M)
        → IsSharded r.hot_cache
        → Returns
            (Answers method path (clear_hot_cache r))
            (match_route hash now address method path (clear_hot_cache r))
    unfolding clear_hot_cache
    clear_hot_cache-Answers now address method path r sharded =
        match_route-Answers now address method path (clear_hot_cache r)
          (cleared-Honest r.roots r.hot_cache sharded)
