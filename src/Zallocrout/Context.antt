-- ===== src/Zallocrout/Context.antt =====
-- routeContext of pkg/zallocrout/context.go. The arrays are lists of their fixed length, and a context
-- from the pool has whatever its last user left in them. Deadline, Done and Err pass calls on to the
-- parent, which is a parameter, as is what the parent has under a key.
pub mod Fresh
use Prim.{Unit, tt}
use go_kitbox.Prelude.{
  ℕ, zero, suc, ◌+◌, ◌-◌, Bool, true, false, List, [], ◌∷◌, ◌++◌, Option, none, some, length,
  get_or, set, take, drop, leb, ◌==◌, if◌then◌else◌,
}
use go_kitbox.Prelude.Keys.{nat_eq, list_eq}
use go_kitbox.Zallocrout.Paths.{Bytes}
use go_kitbox.Zallocrout.Tree.{Param}

abbrev pub max_values : ℕ
max_values = 6

abbrev pub no_param : Param
no_param = ([], [])

-- `no_value` of a pair is the nil interface.
pub record RouteContext (Parent Value : Type 0) : Type 0 where
  pub parent : Option Parent
  pub param_pairs : List Param
  pub param_count : ℕ
  pub value_pairs : List (Bytes × Option Value)
  pub value_count : ℕ

-- A loop over the first pairs of an array, from `i` on with `n` rounds left, up to the first key.
unfoldable pub find_pair : {V : Type 0} → Bytes → V → ℕ → List (Bytes × V) → ℕ → Option V
find_pair key d zero pairs i = none
find_pair key d (suc n) pairs i =
    let here = get_or pairs i ([], d) in
    if list_eq.beq here.0 key then some here.1 else find_pair key d n pairs (suc i)

unfoldable pub clear_values :
    {V : Type 0} → ℕ → List (Bytes × Option V) → ℕ → List (Bytes × Option V)
clear_values zero pairs i = pairs
clear_values (suc n) pairs i = clear_values n (set pairs i ([], none)) (suc i)

-- The parameters are copied one by one, or all at once if there are more than two.
unfoldable pub copy_params : ℕ → List Param → List Param → List Param
copy_params count pairs old =
    if count == 0
    then old
    else (if count == 1
        then set old 0 (get_or pairs 0 no_param)
        else (if count == 2
            then set (set old 0 (get_or pairs 0 no_param)) 1 (get_or pairs 1 no_param)
            else take count pairs ++ drop count old))

module _ {P V : Type 0} where
  unfoldable pub acquire_context : RouteContext P V → P → List Param → ℕ → RouteContext P V
  acquire_context ctx parent pairs count = record ctx {
    parent = some parent;
    param_count = count;
    value_count = 0;
    param_pairs = copy_params count pairs ctx.param_pairs;
  }

  unfoldable pub release_context : RouteContext P V → RouteContext P V
  unfolding clear_values
  release_context ctx = record ctx {
    parent = none;
    param_count = 0;
    value_pairs = clear_values ctx.value_count ctx.value_pairs 0;
    value_count = 0;
  }

  unfoldable pub get_param : Bytes → RouteContext P V → Option Bytes
  unfolding find_pair
  get_param key ctx = find_pair key [] ctx.param_count ctx.param_pairs 0

  unfoldable pub get_value : Bytes → RouteContext P V → Option (Option V)
  unfolding find_pair
  get_value key ctx = find_pair key none ctx.value_count ctx.value_pairs 0

  -- The values of the parent come after the own ones.
  unfoldable pub value : (Option P → Bytes → Option V) → Bytes → RouteContext P V → Option V
  unfolding get_value
  value parent_value key ctx = elim (get_value key ctx) [
    | some v ↦ v
    | none ↦ parent_value ctx.parent key
  ]

  unfoldable pub set_value : Bytes → Option V → RouteContext P V → RouteContext P V × Bool
  set_value key v ctx = if leb max_values ctx.value_count then (ctx, false) else (
    record ctx {
      value_pairs = set ctx.value_pairs ctx.value_count (key, v);
      value_count = suc ctx.value_count;
    },
    true,
  )

-- ExecuteHandler: the middlewares wrap the handler from the last one on; a middleware is a function.
-- The context is released in any case.
unfoldable pub wrap : {H : Type 0} → List (H → H) → H → H
wrap [] handler = handler
wrap (m ∷ ms) handler = m (wrap ms handler)
