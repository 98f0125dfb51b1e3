-- ===== src/Zallocrout/Cache.antt =====
-- shardedMap of pkg/zallocrout/cache.go. wyhash is the parameter `hash`, the time an argument. The map
-- of a shard is a list, which stands for its iteration order too; the pointer to it is never nil after
-- newShardedMap. A store and an eviction run undisturbed.
pub mod Stores
use Prim.Native.Nat.{bit_xor}
use go_kitbox.Prelude.{
  ℕ, zero, suc, ◌+◌, ◌-◌, ◌%◌, Bool, true, false, ◌||◌, List, [], ◌∷◌, map, Option, length, get_or,
  set, take, replicate, ltb, leb, ◌==◌, if◌then◌else◌,
}
use go_kitbox.Prelude.Keys.{Eq, nat_eq, list_eq, pair_eq}
use go_kitbox.Prelude.Maps.{lookup, insert}
use go_kitbox.Zallocrout.Paths.{Bytes}
use go_kitbox.Zallocrout.Tree.{Param}

abbrev pub shard_count : ℕ
shard_count = 16

abbrev pub max_entries_per_shard : ℕ
max_entries_per_shard = 1000

-- The parameters are the first `paramCount` of the array.
pub record CacheEntry (Handler Middleware : Type 0) : Type 0 where
  pub handler : Handler
  pub middlewares : List Middleware
  pub params : List Param
  pub timestamp : ℕ

-- The method and the path
abbrev pub CacheKey : Type 0
CacheKey = Bytes × Bytes

abbrev pub same_key : CacheKey → CacheKey → Bool
same_key a b = pair_eq.beq a b

-- A key with its time, as evictLRU collects them.
abbrev pub Aged : Type 0
Aged = CacheKey × ℕ

abbrev pub age : List Aged → ℕ → ℕ
age entries i = (get_or entries i (([], []), 0)).1

-- The inner loop: the index of the oldest entry from `j` on, with `n` rounds left.
unfoldable pub oldest : ℕ → List Aged → ℕ → ℕ → ℕ
oldest zero entries j min_idx = min_idx
oldest (suc n) entries j min_idx =
    oldest n entries (suc j) (if ltb (age entries j) (age entries min_idx) then j else min_idx)

abbrev pub swap : ℕ → ℕ → List Aged → List Aged
swap i j entries =
    set (set entries i (get_or entries j (([], []), 0))) j (get_or entries i (([], []), 0))

-- The outer loop: the oldest entries come to the front.
unfoldable pub select_oldest : ℕ → ℕ → List Aged → List Aged
unfolding oldest
select_oldest zero i entries = entries
select_oldest (suc n) i entries =
    let min_idx = oldest (length entries - suc i) entries (suc i) i in
    select_oldest n (suc i) (if min_idx == i then entries else swap i min_idx entries)

abbrev pub listed : CacheKey → List Aged → Bool
listed key [] = false
listed key ((k, t) ∷ aged) = same_key k key || listed key aged

abbrev pub evict_count : ℕ
evict_count = 100

unfoldable pub get_shard : (Bytes → ℕ) → CacheKey → ℕ
get_shard hash key = bit_xor (hash key.0) (hash key.1) % shard_count

pub record CacheShard (Handler Middleware : Type 0) : Type 0 where
  pub entries : List (CacheKey × CacheEntry Handler Middleware)
  pub count : ℕ

abbrev pub ShardedMap : Type 0 → Type 0 → Type 0
ShardedMap H M = List (CacheShard H M)

module _ {H M : Type 0} where
  abbrev pub empty_shard : CacheShard H M
  empty_shard = record { entries = []; count = 0 }

  unfoldable pub new_sharded_map : ShardedMap H M
  new_sharded_map = replicate shard_count empty_shard

  -- The copy of a map without the keys to be evicted.
  unfoldable pub without :
      List Aged → List (CacheKey × CacheEntry H M) → List (CacheKey × CacheEntry H M)
  without evicted [] = []
  without evicted ((k, v) ∷ entries) =
      if listed k evicted then without evicted entries else (k, v) ∷ without evicted entries

  -- The count is at least `evictCount` where this is called.
  unfoldable pub evict_lru : CacheShard H M → CacheShard H M
  unfolding select_oldest without
  evict_lru shard =
      let collected : List Aged = map (λ p. (p.0, p.1.timestamp)) shard.entries in
      if ltb (length collected) max_entries_per_shard then shard else record {
        entries = without (take evict_count (select_oldest evict_count 0 collected)) shard.entries;
        count = shard.count - evict_count;
      }

  unfoldable pub store_in : CacheKey → CacheEntry H M → CacheShard H M → CacheShard H M
  unfolding evict_lru
  store_in key entry shard =
      let kept = if leb max_entries_per_shard shard.count then evict_lru shard else shard in
      record { entries = insert key entry kept.entries; count = kept.count + 1 }

  module _ (hash : Bytes → ℕ) where
    unfoldable pub load_with_method_path : Bytes → Bytes → ShardedMap H M → Option (CacheEntry H M)
    unfolding get_shard
    load_with_method_path method path sm =
        lookup (method, path) (get_or sm (get_shard hash (method, path)) empty_shard).entries

    unfoldable pub store_with_method_path :
        Bytes → Bytes → CacheEntry H M → ℕ → ShardedMap H M → ShardedMap H M
    unfolding get_shard store_in
    store_with_method_path method path entry now sm =
        let idx = get_shard hash (method, path) in
        set sm idx
          (store_in (method, path) (record entry { timestamp = now }) (get_or sm idx empty_shard))

  unfoldable pub clear_map : ShardedMap H M → ShardedMap H M
  clear_map sm = map (λ _. empty_shard) sm

  -- The total and the counts of the shards
  unfoldable pub stats : ShardedMap H M → ℕ × List ℕ
  stats [] = (0, [])
  stats (shard ∷ sm) = let (total, counts) = stats sm in (shard.count + total, shard.count ∷ counts)
