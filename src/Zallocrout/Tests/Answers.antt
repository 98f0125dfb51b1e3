-- ===== src/Zallocrout/Tests/Answers.antt =====
-- Routes and answers of the router on concrete inputs.
use go_kitbox.Prelude.{ℕ, ◌≡◌, refl, [], ◌∷◌, List, some, length}
use go_kitbox.Prelude.Keys.{list_beq}
use go_kitbox.Prelude.Maps.{lookup, insert}
use go_kitbox.Prelude.Run.{ok, err, panic, Returns}
use go_kitbox.Zallocrout.Paths.{
  Bytes, slash, needs_loop, needs_normalization, split_loop, split_path_to_compressed_segs,
  is_param_seg, is_wildcard_seg, is_static_seg,
}
use go_kitbox.Zallocrout.Paths.Segments.{parts}
use go_kitbox.Zallocrout.Routes.{
  has_prefix, contains, check_param, check_wildcard, check_segs, validate_route,
}
use go_kitbox.Zallocrout.Tree.{
  Arrived, leaf, blank, push_param, find_static_child, find_param_child, find_wildcard_child,
  grow_child, grow_slot, grow, add_segs, walk, set_handler_with_params,
}
use go_kitbox.Zallocrout.Cache.{CacheEntry, new_sharded_map, store_with_method_path}
use go_kitbox.Zallocrout.Cache.Stores.{load-store}
use go_kitbox.Zallocrout.Router.{
  Router, Answer, normalized, new_router, add_route, find_route, match_route, clear_hot_cache,
  of_cache,
}
use go_kitbox.Zallocrout.Router.Found.{Gives, view_answer, names_of}
use go_kitbox.Zallocrout.Router.Registered.{Route, added}
use go_kitbox.Zallocrout.Router.Registered.Refines.{register, view_for, find_route_refines}
use go_kitbox.Zallocrout.Router.Registered.Covering.{answer_in, Served, find_route_covers}
use go_kitbox.Zallocrout.Router.Cached.{Answers, cleared-Honest, match_route-Answers}
use go_kitbox.Zallocrout.Router.Stale.{match_route_stale}
use go_kitbox.Zallocrout.Tests.Codes.{codes}

abbrev get : Bytes
get = codes "GET"

-- The last call comes first.
abbrev routes : List (Route ℕ ℕ)
routes =
    record { method = get; path = codes "/users/:id"; handler = some 2; middlewares = 9 ∷ [] }
    ∷ record { method = get; path = codes "/users//all"; handler = some 4; middlewares = [] }
    ∷ record { method = get; path = codes "/users/me"; handler = some 1; middlewares = [] }
    ∷ []

abbrev somewhere : Arrived ℕ ℕ
somewhere = record { current = leaf blank; trail = []; params = [] }

abbrev ended : Arrived ℕ ℕ
unfolding find_route normalized needs_normalization needs_loop register new_router added add_route
    validate_route has_prefix contains check_segs check_param check_wildcard parts lookup insert
    is_static_seg is_param_seg is_wildcard_seg split_path_to_compressed_segs split_loop grow_child
    grow_slot grow add_segs set_handler_with_params walk find_static_child find_param_child
    find_wildcard_child push_param list_beq
ended = elim (find_route get (codes "/users/42") (register routes).roots) [
  | ok (there, a) ↦ there
  | err e ↦ somewhere
  | panic ↦ somewhere
]

abbrev user : Answer ℕ ℕ
user = record { handler = 2; middlewares = 9 ∷ []; params = (codes "id", codes "42") ∷ [] }

find_route1 : find_route get (codes "/users/42") (register routes).roots ≡ ok (ended, user)
unfolding find_route normalized needs_normalization needs_loop register new_router added add_route
    validate_route has_prefix contains check_segs check_param check_wildcard parts lookup insert
    is_static_seg is_param_seg is_wildcard_seg split_path_to_compressed_segs split_loop grow_child
    grow_slot grow add_segs set_handler_with_params walk find_static_child find_param_child
    find_wildcard_child push_param list_beq
find_route1 = refl

-- The second route calls its parameter `b`, but the node of the first one is called `a`.
abbrev mixed : List (Route ℕ ℕ)
mixed =
    record { method = get; path = codes "/u/:b/*rest"; handler = some 2; middlewares = [] }
    ∷ record { method = get; path = codes "/u/:a/x"; handler = some 1; middlewares = [] }
    ∷ []

find_route2 :
    answer_in (find_route get (codes "/u/1/y/z") (register mixed).roots)
    ≡ some (record {
      handler = 2;
      middlewares = [];
      params = (codes "a", codes "1") ∷ (codes "*", codes "y/z") ∷ [];
    })
unfolding find_route normalized needs_normalization needs_loop register new_router added add_route
    validate_route has_prefix contains check_segs check_param check_wildcard parts lookup insert
    is_static_seg is_param_seg is_wildcard_seg split_path_to_compressed_segs split_loop grow_child
    grow_slot grow add_segs set_handler_with_params walk find_static_child find_param_child
    find_wildcard_child push_param list_beq
find_route2 = refl

find_route_refines_example :
    Gives
      (view_answer (view_for get routes) (names_of (codes "/users/42")))
      (find_route get (codes "/users/42") (register routes).roots)
find_route_refines_example = find_route_refines routes get slash (codes "users/42")

find_route_covers_example : (x : Route ℕ ℕ) × Served get routes (names_of (codes "/users/42")) 2 x
find_route_covers_example =
    find_route_covers routes get slash (codes "users/42") ended user find_route1

abbrev cleared : Router ℕ ℕ
cleared = clear_hot_cache (record new_router { roots = (register routes).roots })

match_route-Answers_example :
    Returns
      (Answers length get (codes "/users/42") cleared)
      (match_route length 5 24 get (codes "/users/42") cleared)
unfolding new_router new_sharded_map clear_hot_cache
match_route-Answers_example =
    match_route-Answers length 5 24 get (codes "/users/42") cleared
      (cleared-Honest length (register routes).roots new_sharded_map refl)

abbrev entry : CacheEntry ℕ ℕ
entry = record { handler = 2; middlewares = []; params = []; timestamp = 0 }

abbrev warm : Router ℕ ℕ
warm = record new_router {
  hot_cache = store_with_method_path length get (codes "/users/42") entry 5 new_sharded_map;
}

abbrev later : Router ℕ ℕ
later =
    added (record { method = get; path = codes "/users/42"; handler = some 3; middlewares = [] })
      warm

match_route_stale_example :
    (q : Router ℕ ℕ) × (match_route length 5 24 get (codes "/users/42") later
      ≡ ok (q, some (of_cache (record entry { timestamp = 5 }))))
unfolding added add_route validate_route has_prefix contains check_segs check_param check_wildcard
    parts new_router new_sharded_map
match_route_stale_example =
    match_route_stale length 5 24 get (codes "/users/42") (some 3) warm later get
      (codes "/users/42") (record entry { timestamp = 5 }) refl refl
      (load-store length get (codes "/users/42") entry 5 new_sharded_map refl)
