-- ===== src/Zallocrout/Tree.antt =====
-- RouteNode of pkg/zallocrout/node.go, and the loops over a node's children of AddRoute and Match in
-- router.go. The nodes of a method form a tree that only the router holds, so that a node is a value,
-- and a write through the pointer `current` gives the tree with that node changed. Maps of children are
-- lists; nodes come fresh from acquireNode. A nil handler is `none`.
pub mod Places
pub mod Adding
pub mod Walking
pub mod Labels
pub mod Hits
use go_kitbox.Prelude.{
  ℕ, zero, suc, ◌+◌, ◌%◌, ◌^◌, Bool, true, false, List, [], ◌∷◌, ◌++◌, Option, none, some, length,
  drop, ltb, leb, if◌then◌else◌,
}
use go_kitbox.Prelude.Keys.{Eq, nat_eq, list_eq}
use go_kitbox.Prelude.Run.{Run, ok, err, panic, ◌>>=◌}
use go_kitbox.Zallocrout.Paths.{Bytes, star, is_static_seg, is_param_seg, is_wildcard_seg}

pub data NodeType : Type 0 where
  static_compressed param_node wildcard_node : NodeType

-- The fields of a node that are no pointers.
pub record Info (Handler Middleware : Type 0) : Type 0 where
  pub typ : NodeType
  pub seg : Bytes
  pub handler : Option Handler
  pub middlewares : List Middleware
  pub param_name : Bytes
  pub param_names : List Bytes
  pub is_wildcard : Bool
  pub hit_count : ℕ

mutual
  pub data Node (Handler Middleware : Type 0) : Type 0 where
    node :
        Info Handler Middleware
        → Children Handler Middleware
        → Slot Handler Middleware
        → Slot Handler Middleware
        → Node Handler Middleware

  -- staticChildren
  pub data Children (Handler Middleware : Type 0) : Type 0 where
    no_child : Children Handler Middleware
    child :
        Bytes → Node Handler Middleware → Children Handler Middleware → Children Handler Middleware

  -- paramChild and wildcardChild
  pub data Slot (Handler Middleware : Type 0) : Type 0 where
    vacant : Slot Handler Middleware
    filled : Node Handler Middleware → Slot Handler Middleware

-- A pointer from a node to a child.
pub data Step : Type 0 where
  to_static : Bytes → Step
  to_param to_wildcard : Step

abbrev pub Param : Type 0
Param = Bytes × Bytes

-- How Match ends without an answer.
pub data MatchEnd : Type 0 where
  not_found no_fuel : MatchEnd

abbrev pub max_params : ℕ
max_params = 32

-- `paramPairs[paramCount] = …; paramCount++`, if there is room
unfoldable pub push_param : Param → List Param → List Param
push_param param params = if ltb (length params) max_params then params ++ param ∷ [] else params

-- `path[pos:]`
abbrev pub slice_from : Bytes → ℕ → Run MatchEnd Bytes
slice_from path pos = if leb pos (length path) then ok (drop pos path) else panic

-- Where the loop of Match ends: the node, the way to it, and the parameters.
pub record Arrived (Handler Middleware : Type 0) : Type 0 where
  pub current : Node Handler Middleware
  pub trail : List Step
  pub params : List Param

module _ {H M : Type 0} where
  -- acquireNode
  abbrev pub blank : Info H M
  blank = record {
    typ = static_compressed;
    seg = [];
    handler = none;
    middlewares = [];
    param_name = [];
    param_names = [];
    is_wildcard = false;
    hit_count = 0;
  }

  abbrev pub static_info : Bytes → Info H M
  static_info seg = record blank { seg = seg }

  abbrev pub param_info : Bytes → Info H M
  param_info seg = record blank { typ = param_node; seg = seg; param_name = drop 1 seg }

  abbrev pub wildcard_info : Bytes → Info H M
  wildcard_info seg = record blank { typ = wildcard_node; seg = seg; is_wildcard = true }

  abbrev pub leaf : Info H M → Node H M
  leaf i = node i no_child vacant vacant

  abbrev pub info : Node H M → Info H M
  info (node i cs p w) = i

  abbrev pub on_info : (Info H M → Info H M) → Node H M → Node H M
  on_info f (node i cs p w) = node (f i) cs p w

  unfoldable pub set_handler_with_params : Option H → List M → List Bytes → Info H M → Info H M
  set_handler_with_params handler middlewares names i = record i {
    handler = handler;
    middlewares = if ltb 0 (length middlewares) then middlewares else i.middlewares;
    param_names = if ltb 0 (length names) then names else i.param_names;
  }

  -- The counter has 32 bits.
  unfoldable pub increment_hit_count : Info H M → Info H M
  increment_hit_count i = record i { hit_count = (i.hit_count + 1) % 2 ^ 32 }

  abbrev pub find_in : Bytes → Children H M → Option (Node H M)
  find_in seg no_child = none
  find_in seg (child at n cs) = if list_eq.beq at seg then some n else find_in seg cs

  unfoldable pub find_static_child : Bytes → Node H M → Option (Node H M)
  find_static_child seg (node i cs p w) = find_in seg cs

  abbrev pub in_slot : Slot H M → Option (Node H M)
  in_slot vacant = none
  in_slot (filled n) = some n

  unfoldable pub find_param_child : Node H M → Option (Node H M)
  find_param_child (node i cs p w) = in_slot p

  unfoldable pub find_wildcard_child : Node H M → Option (Node H M)
  find_wildcard_child (node i cs p w) = in_slot w

  -- The child of that name, changed by `g`; a new one if there is none.
  unfoldable pub grow_child : Bytes → Info H M → (Node H M → Node H M) → Children H M → Children H M
  grow_child seg new g no_child = child seg (g (leaf new)) no_child
  grow_child seg new g (child at n cs) =
      if list_eq.beq at seg then child at (g n) cs else child at n (grow_child seg new g cs)

  unfoldable pub grow_slot : Info H M → (Node H M → Node H M) → Slot H M → Slot H M
  grow_slot new g vacant = filled (g (leaf new))
  grow_slot new g (filled n) = filled (g n)

  unfoldable pub grow : Step → Info H M → (Node H M → Node H M) → Node H M → Node H M
  unfolding grow_child grow_slot
  grow (to_static seg) new g (node i cs p w) = node i (grow_child seg new g cs) p w
  grow to_param new g (node i cs p w) = node i cs (grow_slot new g p) w
  grow to_wildcard new g (node i cs p w) = node i cs p (grow_slot new g w)

  -- The loop of AddRoute from a node on, which ends with `f` on the node that it reaches. A wildcard
  -- ends the loop.
  unfoldable pub add_segs : List Bytes → (Info H M → Info H M) → Node H M → Node H M
  unfolding grow
  add_segs [] f n = on_info f n
  add_segs (seg ∷ segs) f n =
      let next = add_segs segs f in
      if is_static_seg seg
      then grow (to_static seg) (static_info seg) next n
      else (if is_param_seg seg
          then grow to_param (param_info seg) next n
          else (if is_wildcard_seg seg
              then grow to_wildcard (wildcard_info seg) (on_info f) n
              else next n))

  -- The way starts one node further up.
  abbrev pub after_step : Step → Arrived H M → Arrived H M
  after_step st a = record a { trail = st ∷ a.trail }

  -- The loop of Match from a node on, at the position `pos` of the normalised path: a static child comes
  -- first, then the one for a parameter, then a wildcard, and no choice is taken back.
  unfoldable pub walk : Bytes → List Bytes → ℕ → List Param → Node H M → Run MatchEnd (Arrived H M)
  walk path [] pos params n = ok (record { current = n; trail = []; params = params })
  walk path (seg ∷ segs) pos params n = elim (find_static_child seg n) [
    | some c ↦
        walk path segs (pos + (length seg + 1)) params c >>= λ a. ok (after_step (to_static seg) a)
    | none ↦ elim (find_param_child n) [
      | some c ↦
          walk path segs (pos + (length seg + 1)) (push_param ((info c).param_name, seg) params) c
          >>= λ a. ok (after_step to_param a)
      | none ↦ elim (find_wildcard_child n) [
        | some c ↦ slice_from path pos >>= λ remaining. ok (record {
          current = c;
          trail = to_wildcard ∷ [];
          params = push_param (star ∷ [], remaining) params;
        })
        | none ↦ err not_found
      ]
    ]
  ]

  -- A write through a pointer: the node at the end of a way is changed.
  unfoldable pub change_at : List Step → (Info H M → Info H M) → Node H M → Node H M
  unfolding grow
  change_at [] f n = on_info f n
  change_at (st ∷ trail) f n = grow st blank (change_at trail f) n
