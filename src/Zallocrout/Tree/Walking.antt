-- ===== src/Zallocrout/Tree/Walking.antt =====
-- Where the loop of Match ends, by the nodes that there are: the greedy way, and its parameters.
use go_kitbox.Prelude.{
  suc, ◌+◌, ◌≡◌, refl, sym, ap, ap₂, ◌∙◌, fun_ext, Bool, true, List, [], ◌∷◌, ◌++◌, Option, none,
  some, length, leb, if◌then◌else◌, Option-cases, inl, inr, length-append, drop-append,
  append_assoc, drop-suc, arith,
}
use mathlib.Core.Path.{subst}
use go_kitbox.Prelude.Run.{Run, ok, err, ◌>>=◌}
use go_kitbox.Zallocrout.Paths.{Bytes, slash, star}
use go_kitbox.Zallocrout.Tree.{
  Node, Step, to_static, to_param, to_wildcard, Param, push_param, info, Arrived, MatchEnd,
  not_found, after_step, slice_from, walk, find_static_child, find_param_child, find_wildcard_child,
}
use go_kitbox.Zallocrout.Tree.Places.{child_at, node_at, on_child}
use go_kitbox.Zallocrout.Tree.Adding.{field_at, field_at-some, has}

-- "/a/b" for a and b
abbrev pub bars : List Bytes → Bytes
bars [] = []
bars (seg ∷ segs) = slash ∷ (seg ++ bars segs)

abbrev pub onward : Step → Option (List Step) → Option (List Step)
onward st none = none
onward st (some k) = some (st ∷ k)

-- The way that always takes the first of the three kinds for which there is a node.
unfoldable pub greedy : (List Step → Bool) → List Bytes → Option (List Step)
greedy at [] = some []
greedy at (seg ∷ segs) =
    let by_static = onward (to_static seg) (greedy (λ k. at (to_static seg ∷ k)) segs) in
    let by_param = onward to_param (greedy (λ k. at (to_param ∷ k)) segs) in
    if at (to_static seg ∷ [])
    then by_static
    else (if at (to_param ∷ [])
        then by_param
        else (if at (to_wildcard ∷ []) then some (to_wildcard ∷ []) else none))

-- The parameters of a way: a segment for each `:`, under the name that its node has, and all that is
-- left of the path for `*`.
unfoldable pub bound : (List Step → Bytes) → List Step → List Bytes → List Param
bound name [] segs = []
bound name (st ∷ k) [] = []
bound name (to_static s ∷ k) (seg ∷ segs) = bound (λ k'. name (to_static s ∷ k')) k segs
bound name (to_param ∷ k) (seg ∷ segs) =
    (name (to_param ∷ []), seg) ∷ bound (λ k'. name (to_param ∷ k')) k segs
bound name (to_wildcard ∷ k) (seg ∷ segs) = (star ∷ [], seg ++ bars segs) ∷ []

abbrev pub fill : List Param → List Param → List Param
fill params [] = params
fill params (p ∷ ps) = fill (push_param p params) ps

slice_lem :
    (front : Bytes) (seg : Bytes) (segs : List Bytes)
    → slice_from (front ++ bars (seg ∷ segs)) (suc (length front)) ≡ ok (seg ++ bars segs)
slice_lem front seg segs =
    let fits : leb (suc (length front)) (length (front ++ bars (seg ∷ segs))) ≡ true =
      ground (arith, length-append front (bars (seg ∷ segs))) in
    rw
      (
        fits,
        drop-suc (length front) (front ++ bars (seg ∷ segs)),
        drop-append front (bars (seg ∷ segs)),
      )
      refl

module _ {H M : Type 0} where
  abbrev pub name_at : Node H M → List Step → Bytes
  name_at n k = field_at (λ i. i.param_name) [] k n

  -- How the loop ends, by the way that there is.
  pub data Walks (segs : List Bytes) (n : Node H M) (params : List Param)
      : Option (List Step) → Run MatchEnd (Arrived H M) → Type 0 where
    lost : Walks segs n params none (err not_found)
    arrives :
        (a : Arrived H M)
        → node_at a.trail n ≡ some a.current
        → a.params ≡ fill params (bound (name_at n) a.trail segs)
        → Walks segs n params (some a.trail) (ok a)

  -- One step more at the start.
  further :
      (st : Step) (seg : Bytes) (segs : List Bytes) (n c : Node H M) (params params' : List Param)
      {o : Option (List Step)} {r : Run MatchEnd (Arrived H M)}
      → child_at st n ≡ some c
      → ((k : List Step)
          → fill params' (bound (name_at c) k segs)
            ≡ fill params (bound (name_at n) (st ∷ k) (seg ∷ segs)))
      → Walks segs c params' o r
      → Walks (seg ∷ segs) n params (onward st o) (r >>= λ a. ok (after_step st a))
  further st seg segs n c params params' e p lost = lost
  further st seg segs n c params params' e p (arrives a there q) =
      arrives (after_step st a) (ap (on_child none (λ c'. node_at a.trail c')) e ∙ there)
        (q ∙ p a.trail)

  -- A step to the child `c`, whose parameters are `params'`.
  stepped :
      (st : Step) (front seg : Bytes) (segs : List Bytes) (params params' : List Param)
      (n c : Node H M)
      → child_at st n ≡ some c
      → ((k : List Step)
          → fill params' (bound (name_at c) k segs)
            ≡ fill params (bound (name_at n) (st ∷ k) (seg ∷ segs)))
      → Walks segs c params' (greedy (λ k. has k c) segs) (
          walk
            ((front ++ slash ∷ seg) ++ bars segs)
            segs
            (suc (length (front ++ slash ∷ seg)))
            params'
            c)
      → Walks (seg ∷ segs) n params (onward st (greedy (λ k. has k c) segs)) (
          walk (front ++ bars (seg ∷ segs)) segs (suc (length front) + (length seg + 1)) params' c
          >>= λ a. ok (after_step st a))
  stepped st front seg segs params params' n c e p w =
      let place : suc (length (front ++ slash ∷ seg)) ≡ suc (length front) + (length seg + 1) =
        omega (arith, length-append front (slash ∷ seg)) in
      subst (λ r. Walks (seg ∷ segs) n params (onward st (greedy (λ k. has k c) segs)) r)
        (ap₂ (λ path pos. walk path segs pos params' c >>= λ a. ok (after_step st a))
          (append_assoc front (slash ∷ seg) (bars segs)) place)
        (further st seg segs n c params params' e p w)

  names_below :
      (st : Step) (n c : Node H M) → child_at st n ≡ some c → name_at c ≡ (λ k. name_at n (st ∷ k))
  names_below st n c e = fun_ext (λ k. sym (field_at-some (λ i. i.param_name) [] st k n c e))

  -- The rest of the path, from the position of a segment on.
  wildcard_step :
      (front seg : Bytes) (segs : List Bytes) (params : List Param) (n c : Node H M)
      → find_wildcard_child n ≡ some c
      → Walks (seg ∷ segs) n params (some (to_wildcard ∷ [])) (
          slice_from (front ++ bars (seg ∷ segs)) (suc (length front)) >>= λ remaining. ok (record {
            current = c;
            trail = to_wildcard ∷ [];
            params = push_param (star ∷ [], remaining) params;
          }))
  unfolding bound
  wildcard_step front seg segs params n c e = rw (slice_lem front seg segs) (
      arrives (record { current = c; trail = to_wildcard ∷ []; params = _ })
        (ap (on_child none (λ c'. some c')) e) refl)

  pub walk-Walks :
      (segs : List Bytes) (front : Bytes) (params : List Param) (n : Node H M)
      → Walks segs n params
          (greedy (λ k. has k n) segs)
          (walk (front ++ bars segs) segs (suc (length front)) params n)
  unfolding walk greedy bound
  walk-Walks [] front params n = arrives _ refl refl
  walk-Walks (seg ∷ segs) front params n = elim (Option-cases (find_static_child seg n)) [
    | inr (c, e) ↦
        rw (e, walk, greedy)
          (stepped (to_static seg) front seg segs params params n c e
            (λ k. ap (λ name. fill params (bound name k segs)) (names_below (to_static seg) n c e))
            (walk-Walks segs (front ++ slash ∷ seg) params c))
    | inl no_static ↦ elim (Option-cases (find_param_child n)) [
      | inr (c, e) ↦
          rw (no_static, e, walk, greedy)
            (stepped to_param front seg segs params (push_param ((info c).param_name, seg) params) n
              c e
              (λ k.
                ap₂ (λ own name. fill (push_param (own, seg) params) (bound name k segs))
                  (sym (field_at-some (λ i. i.param_name) [] to_param [] n c e))
                  (names_below to_param n c e))
              (walk-Walks segs (front ++ slash ∷ seg) (push_param ((info c).param_name, seg) params)
                c))
      | inl no_param ↦ elim (Option-cases (find_wildcard_child n)) [
        | inr (c, e) ↦
            rw (no_static, no_param, e, walk, greedy) (wildcard_step front seg segs params n c e)
        | inl no_wildcard ↦ rw (no_static, no_param, no_wildcard, walk, greedy) lost
      ]
    ]
  ]
