-- ===== src/Zallocrout/Cache/Stores.antt =====
-- What a load finds after a store: the stored entry, and under other keys nothing that was not there.
use go_kitbox.Prelude.{
  ℕ, zero, suc, ◌<◌, ◌≡◌, ◌≢◌, ◌⊎◌, refl, sym, ap, ◌∙◌, Bool, true, false, List, [], ◌∷◌, map, none,
  some, length, get_or, set, take, ltb, leb, ◌==◌, ==_iff, if◌then◌else◌, Bool-cases, either_branch,
  inl, inr, length-set, get_or-set_self, get_or-set_ne, arith,
}
use go_kitbox.Prelude.Keys.{nat_eq, list_eq, pair_eq, pair_beq_iff}
use go_kitbox.Prelude.Maps.{lookup, insert_cases, lookup-insert_self}
use go_kitbox.Zallocrout.Paths.{Bytes}
use go_kitbox.Zallocrout.Cache.{
  CacheKey, same_key, Aged, listed, CacheEntry, CacheShard, ShardedMap, shard_count, empty_shard,
  max_entries_per_shard, evict_count, select_oldest, without, evict_lru, store_in, get_shard,
  load_with_method_path, store_with_method_path, clear_map,
}

if_same {ℓ} : {A : Type ℓ} {x : A} (b : Bool) → x ≡ (if b then x else x)
if_same true = refl
if_same false = refl

module _ {H M : Type 0} where
  -- An eviction takes the listed keys away, and no others.
  lookup-without :
      (evicted : List Aged) (asked : CacheKey) (entries : List (CacheKey × CacheEntry H M))
      → lookup asked (without evicted entries)
        ≡ (if listed asked evicted then none else lookup asked entries)
  unfolding lookup without
  lookup-without evicted asked [] = if_same (listed asked evicted)
  lookup-without evicted asked ((k, v) ∷ entries) =
      let ih = lookup-without evicted asked entries in
      elim (Bool-cases (same_key k asked)) [
        | inl same ↦
            let eq : k ≡ asked = (pair_beq_iff k asked).0 same in
            elim (Bool-cases (listed asked evicted)) [
              | inl out ↦
                  let out' : listed k evicted ≡ true = ap (λ a. listed a evicted) eq ∙ out in
                  rw (out', out, without) (ih ∙ rw out refl)
              | inr kept ↦
                  let kept' : listed k evicted ≡ false = ap (λ a. listed a evicted) eq ∙ kept in
                  rw (kept', kept, without, same) refl
            ]
        | inr other ↦ elim (Bool-cases (listed k evicted)) [
          | inl out ↦ rw (out, other, without) ih
          | inr kept ↦ rw (kept, other, without) ih
        ]
      ]

  -- What a shard has under a key, another one had.
  abbrev Had : CacheShard H M → CacheKey → CacheEntry H M → CacheShard H M → Type 0
  Had old asked found shard =
      lookup asked shard.entries ≡ some found → lookup asked old.entries ≡ some found

  without_found :
      (evicted : List Aged) (asked : CacheKey) (found : CacheEntry H M)
      (entries : List (CacheKey × CacheEntry H M))
      → lookup asked (without evicted entries) ≡ some found
      → lookup asked entries ≡ some found
  without_found evicted asked found entries h =
      let h' : (if listed asked evicted then none else lookup asked entries) ≡ some found =
        sym (lookup-without evicted asked entries) ∙ h in
      ground (arith, h')

  evict_lru-Had :
      (shard : CacheShard H M) (asked : CacheKey) (found : CacheEntry H M)
      → Had shard asked found (evict_lru shard)
  unfolding evict_lru
  evict_lru-Had shard asked found =
      let aged : List Aged = map (λ p. (p.0, p.1.timestamp)) shard.entries in
      either_branch (Had shard asked found) (ltb (length aged) max_entries_per_shard) (λ h. h)
        (without_found (take evict_count (select_oldest evict_count 0 aged)) asked found
          shard.entries)

  store_in_found :
      (key asked : CacheKey) (entry found : CacheEntry H M) (shard : CacheShard H M)
      → lookup asked (store_in key entry shard).entries ≡ some found
      → ((key ≡ asked) × (entry ≡ found)) ⊎ (lookup asked shard.entries ≡ some found)
  unfolding store_in
  store_in_found key asked entry found shard h =
      let kept : CacheShard H M =
        if leb max_entries_per_shard shard.count then evict_lru shard else shard in
      elim (insert_cases key asked entry found kept.entries h) [
        | inl new ↦ inl new
        | inr (other, old) ↦ inr (
            either_branch (Had shard asked found) (leb max_entries_per_shard shard.count)
              (evict_lru-Had shard asked found) (λ h'. h') old)
      ]

  -- A cache has its sixteen shards.
  abbrev pub IsSharded : ShardedMap H M → Type 0
  IsSharded sm = length sm ≡ shard_count

  module _ (hash : Bytes → ℕ) (method path : Bytes) (entry : CacheEntry H M) (now : ℕ)
      (sm : ShardedMap H M) where
    pub store-IsSharded :
        IsSharded sm → IsSharded (store_with_method_path hash method path entry now sm)
    unfolding store_with_method_path
    store-IsSharded h = length-set sm _ _ ∙ h

    idx_lt : (key : CacheKey) → IsSharded sm → get_shard hash key < length sm
    unfolding get_shard
    idx_lt key h = omega (arith, h)

    -- A load under the same method and path finds what was just stored, whatever was evicted, with the
    -- time of the store.
    pub load-store :
        IsSharded sm
        → load_with_method_path hash method path
            (store_with_method_path hash method path entry now sm)
          ≡ some (record entry { timestamp = now })
    unfolding load_with_method_path store_with_method_path store_in
    load-store h =
        ap (λ (s : CacheShard H M). lookup (method, path) s.entries)
          (get_or-set_self sm (get_shard hash (method, path)) _ empty_shard
            (idx_lt (method, path) h))
        ∙ lookup-insert_self (method, path) _ _

    -- What a load finds after a store is the stored entry, or was found before.
    pub load-store_cases :
        (m p : Bytes) (found : CacheEntry H M)
        → IsSharded sm
        → load_with_method_path hash m p (store_with_method_path hash method path entry now sm)
          ≡ some found
        → ((method ≡ m) × (path ≡ p) × (record entry { timestamp = now } ≡ found))
          ⊎ (load_with_method_path hash m p sm ≡ some found)
    unfolding load_with_method_path store_with_method_path
    load-store_cases m p found sharded h =
        let i : ℕ = get_shard hash (method, path) in
        let j : ℕ = get_shard hash (m, p) in
        let new : CacheShard H M =
          store_in (method, path) (record entry { timestamp = now }) (get_or sm i empty_shard) in
        elim (Bool-cases (i == j)) [
          | inl same ↦
              let eq : i ≡ j = (==_iff i j).0 same in
              let there : get_or (set sm i new) j empty_shard ≡ new =
                ap (λ n. get_or (set sm i new) n empty_shard) (sym eq)
                ∙ get_or-set_self sm i new empty_shard (idx_lt (method, path) sharded) in
              let h' : lookup (m, p) new.entries ≡ some found =
                sym (ap (λ (s : CacheShard H M). lookup (m, p) s.entries) there) ∙ h in
              elim (store_in_found (method, path) (m, p) _ found (get_or sm i empty_shard) h') [
                | inl (key, e) ↦ inl (ap (λ k. k.0) key, ap (λ k. k.1) key, e)
                | inr old ↦
                    inr (ap (λ n. lookup (m, p) (get_or sm n empty_shard).entries) (sym eq) ∙ old)
              ]
          | inr other ↦
              let ne : i ≢ j = λ e. cc (other, (==_iff i j).1 e) in
              inr (
                ap (λ (s : CacheShard H M). lookup (m, p) s.entries)
                  (sym (get_or-set_ne sm new empty_shard ne))
                ∙ h)
        ]

  cleared_shard : (sm : ShardedMap H M) (i : ℕ) → get_or (clear_map sm) i empty_shard ≡ empty_shard
  unfolding clear_map
  cleared_shard [] i = refl
  cleared_shard (s ∷ sm) zero = refl
  cleared_shard (s ∷ sm) (suc i) = cleared_shard sm i

  pub load_cleared :
      (hash : Bytes → ℕ) (m p : Bytes) (sm : ShardedMap H M)
      → load_with_method_path hash m p (clear_map sm) ≡ none
  unfolding load_with_method_path clear_map lookup
  load_cleared hash m p sm =
      ap (λ (s : CacheShard H M). lookup (m, p) s.entries)
        (cleared_shard sm (get_shard hash (m, p)))
