-- ===== src/Zallocrout/Tree/Labels.antt =====
-- The names that the nodes of parameters have: those of the route that made the node.
use go_kitbox.Prelude.{
  ◌≡◌, refl, sym, ap, ◌∙◌, true, false, List, [], ◌∷◌, Option, none, some, drop, if◌then◌else◌,
  Bool-cases, inl, inr, arith,
}
use go_kitbox.Zallocrout.Paths.{Bytes, is_static_seg, is_param_seg, is_wildcard_seg}
use go_kitbox.Zallocrout.Tree.{
  Info, Node, node, Step, to_static, to_param, to_wildcard, leaf, add_segs, find_static_child,
  find_param_child, find_wildcard_child,
}
use go_kitbox.Zallocrout.Tree.Places.{step_beq, child_at, or_leaf, on_child}
use go_kitbox.Zallocrout.Tree.Adding.{
  moves, add_moves, add_segs-moves, info-grow, grown_child, other_child, has,
}
use go_kitbox.Zallocrout.Tree.Walking.{name_at}

-- The steps of a route, with the names of its parameters.
unfoldable pub labels : List Bytes → List (Step × Bytes)
labels [] = []
labels (seg ∷ segs) =
    if is_static_seg seg
    then (to_static seg, []) ∷ labels segs
    else (if is_param_seg seg
        then (to_param, drop 1 seg) ∷ labels segs
        else (if is_wildcard_seg seg then (to_wildcard, []) ∷ [] else labels segs))

-- The name at the end of a way.
abbrev pub label_at : List (Step × Bytes) → List Step → Bytes
label_at [] k = []
label_at ((st, name) ∷ ls) [] = []
label_at ((st, name) ∷ ls) (asked ∷ []) = if step_beq st asked then name else []
label_at ((st, name) ∷ ls) (asked ∷ next ∷ k) =
    if step_beq st asked then label_at ls (next ∷ k) else []

-- The name of a node that a step makes, or that is further down on the way.
abbrev made : Bytes → List (Step × Bytes) → List Step → Bytes
made name ls [] = name
made name ls (st ∷ k) = label_at ls (st ∷ k)

label_at_same :
    (st asked : Step) (name : Bytes) (ls : List (Step × Bytes)) (k : List Step)
    → step_beq st asked ≡ true
    → label_at ((st, name) ∷ ls) (asked ∷ k) ≡ made name ls k
label_at_same st asked name ls [] same = rw same refl
label_at_same st asked name ls (next ∷ k) same = rw same refl

label_at_other :
    (st asked : Step) (name : Bytes) (ls : List (Step × Bytes)) (k : List Step)
    → step_beq st asked ≡ false
    → label_at ((st, name) ∷ ls) (asked ∷ k) ≡ []
label_at_other st asked name ls [] other = rw other refl
label_at_other st asked name ls (next ∷ k) other = rw other refl

module _ {H M : Type 0} where
  labelled : List (Step × Info H M) → List (Step × Bytes)
  labelled [] = []
  labelled ((st, new) ∷ ms) = (st, new.param_name) ∷ labelled ms

labelled-moves :
    (H M : Type 0) (segs : List Bytes) → labelled (moves {H = H} {M = M} segs) ≡ labels segs
unfolding labelled moves labels
labelled-moves H M [] = refl
labelled-moves H M (seg ∷ segs) = ground (arith, labelled-moves H M segs)

module _ {H M : Type 0} where
  -- Where there is no node there is no name.
  below :
      (k : List Step)
      → ((c : Node H M) → name_at c k ≡ (if has k c then name_at c k else []))
      → (o : Option (Node H M))
      → on_child [] (λ c. name_at c k) o
        ≡ (if on_child false (λ c. has k c) o then on_child [] (λ c. name_at c k) o else [])
  below k ih none = refl
  below k ih (some c) = ih c

  no_node : (k : List Step) (n : Node H M) → name_at n k ≡ (if has k n then name_at n k else [])
  no_node [] n = refl
  no_node (st ∷ k) n = below k (no_node k) (child_at st n)

  pub leaf_childless :
      (st : Step) (k : List Step) (new : Info H M) → has (st ∷ k) (leaf new) ≡ false
  unfolding find_static_child find_param_child find_wildcard_child
  leaf_childless (to_static seg) k new = refl
  leaf_childless to_param k new = refl
  leaf_childless to_wildcard k new = refl

  module _ (f : Info H M → Info H M)
      (keeps : (i : Info H M) → (f i).param_name ≡ i.param_name) where
    own_name :
        (ms : List (Step × Info H M)) (n : Node H M) → name_at (add_moves ms f n) [] ≡ name_at n []
    unfolding add_moves
    own_name [] (node i cs p w) = keeps i
    own_name ((st, new) ∷ ms) n = ap (λ i. i.param_name) (info-grow st new (add_moves ms f) n)

    grown_name :
        (ms : List (Step × Info H M)) (new : Info H M) (k : List Step)
        → ((n : Node H M)
            → name_at (add_moves ms f n) k
              ≡ (if has k n then name_at n k else label_at (labelled ms) k))
        → (o : Option (Node H M))
        → name_at (add_moves ms f (or_leaf new o)) k ≡ (
            if on_child false (λ c. has k c) o
            then on_child [] (λ c. name_at c k) o
            else made new.param_name (labelled ms) k)
    grown_name ms new [] ih none = own_name ms (leaf new)
    grown_name ms new (st ∷ k) ih none =
        ih (leaf new)
        ∙ ap (λ b. if b then name_at (leaf new) (st ∷ k) else label_at (labelled ms) (st ∷ k))
            (leaf_childless st k new)
    grown_name ms new [] ih (some c) = ih c
    grown_name ms new (st ∷ k) ih (some c) = ih c

    name_at-add_moves :
        (ms : List (Step × Info H M)) (k : List Step) (n : Node H M)
        → name_at (add_moves ms f n) k ≡ (if has k n then name_at n k else label_at (labelled ms) k)
    unfolding add_moves labelled find_static_child find_param_child find_wildcard_child
    name_at-add_moves ms [] n = own_name ms n
    name_at-add_moves [] (to_static seg ∷ k) (node i cs p w) =
        no_node (to_static seg ∷ k) (node i cs p w)
    name_at-add_moves [] (to_param ∷ k) (node i cs p w) = no_node (to_param ∷ k) (node i cs p w)
    name_at-add_moves [] (to_wildcard ∷ k) (node i cs p w) =
        no_node (to_wildcard ∷ k) (node i cs p w)
    name_at-add_moves ((st, new) ∷ ms) (asked ∷ k) n =
        let grown = grown_name ms new k (name_at-add_moves ms k) (child_at asked n) in
        elim (Bool-cases (step_beq st asked)) [
          | inl same ↦
              ap (on_child [] (λ c. name_at c k)) (grown_child st asked new (add_moves ms f) n same)
              ∙ grown
              ∙ ap (λ w. if has (asked ∷ k) n then name_at n (asked ∷ k) else w)
                  (sym (label_at_same st asked new.param_name (labelled ms) k same))
          | inr other ↦
              ap (on_child [] (λ c. name_at c k))
                (other_child st asked new (add_moves ms f) n other)
              ∙ no_node (asked ∷ k) n
              ∙ ap (λ w. if has (asked ∷ k) n then name_at n (asked ∷ k) else w)
                  (sym (label_at_other st asked new.param_name (labelled ms) k other))
        ]

    -- A node that was there keeps its name, and a new one has that of the route.
    pub name_at-add_segs :
        (segs : List Bytes) (k : List Step) (n : Node H M)
        → name_at (add_segs segs f n) k
          ≡ (if has k n then name_at n k else label_at (labels segs) k)
    name_at-add_segs segs k n =
        rw (add_segs-moves segs f n, sym (labelled-moves H M segs))
          (name_at-add_moves (moves segs) k n)
