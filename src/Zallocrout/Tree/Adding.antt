-- ===== src/Zallocrout/Tree/Adding.antt =====
-- What the loop of AddRoute changes: the node at the key of the route, and that the nodes on the way to
-- it are there.
use Prim.{Unit, tt}
use go_kitbox.Prelude.{
  ◌≡◌, refl, sym, ap, ◌∙◌, fun_ext, Bool, true, false, ◌||◌, List, [], ◌∷◌, none, some,
  if◌then◌else◌, Bool-cases, Option-cases, either_branch, inl, inr, arith,
}
use go_kitbox.Prelude.Keys.{list_eq, list_beq, beq_false}
use go_kitbox.Zallocrout.Paths.{Bytes, is_static_seg, is_param_seg, is_wildcard_seg}
use go_kitbox.Zallocrout.Tree.{
  Info, Node, node, Step, to_static, to_param, to_wildcard, static_info, param_info, wildcard_info,
  leaf, info, on_info, grow, add_segs, find_static_child, find_param_child, find_wildcard_child,
}
use go_kitbox.Zallocrout.Tree.Places.{
  step_beq, step_beq_iff, on_child, step_eq, starts, child_at, or_leaf, child_at-grow,
}

-- The way to the node of a route, by the kinds of its segments.
unfoldable pub key : List Bytes → List Step
key [] = []
key (seg ∷ segs) =
    if is_static_seg seg
    then to_static seg ∷ key segs
    else (if is_param_seg seg
        then to_param ∷ key segs
        else (if is_wildcard_seg seg then to_wildcard ∷ [] else key segs))

module _ {H M : Type 0} where
  -- The steps with the node that each makes where there is none.
  unfoldable pub moves : List Bytes → List (Step × Info H M)
  moves [] = []
  moves (seg ∷ segs) =
      if is_static_seg seg
      then (to_static seg, static_info seg) ∷ moves segs
      else (if is_param_seg seg
          then (to_param, param_info seg) ∷ moves segs
          else (if is_wildcard_seg seg then (to_wildcard, wildcard_info seg) ∷ [] else moves segs))

  unfoldable pub add_moves : List (Step × Info H M) → (Info H M → Info H M) → Node H M → Node H M
  add_moves [] f n = on_info f n
  add_moves ((st, new) ∷ ms) f n = grow st new (add_moves ms f) n

  pub add_segs-moves :
      (segs : List Bytes) (f : Info H M → Info H M) (n : Node H M)
      → add_segs segs f n ≡ add_moves (moves segs) f n
  unfolding add_segs moves add_moves
  add_segs-moves [] f n = refl
  add_segs-moves (seg ∷ segs) f n =
      let rest : add_segs segs f ≡ add_moves (moves segs) f = fun_ext (add_segs-moves segs f) in
      elim (Bool-cases (is_static_seg seg)) [
        | inl y ↦ rw (y, moves) (ap (λ g. grow (to_static seg) (static_info seg) g n) rest)
        | inr z ↦ elim (Bool-cases (is_param_seg seg)) [
          | inl y ↦ rw (z, y, moves) (ap (λ g. grow to_param (param_info seg) g n) rest)
          | inr z' ↦ elim (Bool-cases (is_wildcard_seg seg)) [
            | inl y ↦ rw (z, z', y, moves) refl
            | inr z'' ↦ rw (z, z', z'', moves) (ap (λ g. g n) rest)
          ]
        ]
      ]

  abbrev pub steps : List (Step × Info H M) → List Step
  steps [] = []
  steps ((st, new) ∷ ms) = st ∷ steps ms

  pub info-grow :
      (st : Step) (new : Info H M) (g : Node H M → Node H M) (n : Node H M)
      → info (grow st new g n) ≡ info n
  unfolding grow
  info-grow (to_static seg) new g (node i cs p w) = refl
  info-grow to_param new g (node i cs p w) = refl
  info-grow to_wildcard new g (node i cs p w) = refl

steps-moves : (H M : Type 0) (segs : List Bytes) → steps (moves {H = H} {M = M} segs) ≡ key segs
unfolding moves key
steps-moves H M [] = refl
steps-moves H M (seg ∷ segs) = ground (arith, steps-moves H M segs)

pub or_false : (b : Bool) → (b || false) ≡ b
or_false true = refl
or_false false = refl

-- A child that the step grows, and the others.
module _ {H M : Type 0} (st asked : Step) (new : Info H M) (g : Node H M → Node H M)
    (n : Node H M) where
  pub grown_child :
      step_beq st asked ≡ true
      → child_at asked (grow st new g n) ≡ some (g (or_leaf new (child_at asked n)))
  grown_child same =
      child_at-grow st asked new g n
      ∙ rw same (ap (λ s. some (g (or_leaf new (child_at s n)))) ((step_beq_iff st asked).0 same))

  pub other_child : step_beq st asked ≡ false → child_at asked (grow st new g n) ≡ child_at asked n
  other_child other = child_at-grow st asked new g n ∙ rw other refl

-- A field of the node at the end of a way, or `d` if there is no node.
module _ {H M X : Type 0} (field : Info H M → X) (d : X) where
  abbrev pub field_at : List Step → Node H M → X
  field_at [] n = field (info n)
  field_at (st ∷ k) n = on_child d (λ c. field_at k c) (child_at st n)

  pub field_at-none :
      (st : Step) (k : List Step) (n : Node H M) → child_at st n ≡ none → field_at (st ∷ k) n ≡ d
  field_at-none st k n e = ap (on_child d (λ c. field_at k c)) e

  pub field_at-some :
      (st : Step) (k : List Step) (n c : Node H M)
      → child_at st n ≡ some c
      → field_at (st ∷ k) n ≡ field_at k c
  field_at-some st k n c e = ap (on_child d (λ c'. field_at k c')) e

  -- The new nodes have that field as nothing.
  abbrev NewAs : List (Step × Info H M) → Type 0
  NewAs [] = Unit
  NewAs ((st, new) ∷ ms) = (field new ≡ d) × NewAs ms

  pub field_at-leaf : (k : List Step) (new : Info H M) → field new ≡ d → field_at k (leaf new) ≡ d
  unfolding find_static_child find_param_child find_wildcard_child
  field_at-leaf [] new e = e
  field_at-leaf (to_static seg ∷ k) new e = refl
  field_at-leaf (to_param ∷ k) new e = refl
  field_at-leaf (to_wildcard ∷ k) new e = refl

  module _ (f : Info H M → Info H M) (g : X → X)
      (does : (i : Info H M) → field (f i) ≡ g (field i)) where
    field_at-add_moves :
        (ms : List (Step × Info H M)) (k : List Step) (n : Node H M)
        → NewAs ms
        → field_at k (add_moves ms f n)
          ≡ (if list_eq.beq k (steps ms) then g (field_at k n) else field_at k n)
    unfolding add_moves list_beq find_static_child find_param_child find_wildcard_child
    field_at-add_moves [] [] (node i cs p w) h = does i
    field_at-add_moves [] (to_static seg ∷ k) (node i cs p w) h = refl
    field_at-add_moves [] (to_param ∷ k) (node i cs p w) h = refl
    field_at-add_moves [] (to_wildcard ∷ k) (node i cs p w) h = refl
    field_at-add_moves ((st, new) ∷ ms) [] n h = ap field (info-grow st new (add_moves ms f) n)
    field_at-add_moves ((st, new) ∷ ms) (asked ∷ k) n h =
        let grown : field_at k (add_moves ms f (or_leaf new (child_at asked n))) ≡ (
            if list_beq k (steps ms) then g (field_at (asked ∷ k) n) else field_at (asked ∷ k) n) =
          elim (Option-cases (child_at asked n)) [
            | inl e ↦
                let new_leaf =
                  field_at-add_moves ms k (leaf new) h.1
                  ∙ ap (λ x. if list_beq k (steps ms) then g x else x) (field_at-leaf k new h.0) in
                rw (field_at-none asked k n e, e) new_leaf
            | inr (c, e) ↦ rw (field_at-some asked k n c e, e) (field_at-add_moves ms k c h.1)
          ] in
        elim (Bool-cases (step_beq st asked)) [
          | inl same ↦
              let eq : st ≡ asked = (step_beq_iff st asked).0 same in
              let back : step_beq asked st ≡ true = (step_beq_iff asked st).1 (sym eq) in
              ap (on_child d (λ c. field_at k c)) (grown_child st asked new (add_moves ms f) n same)
              ∙ grown
              ∙ rw back refl
          | inr other ↦
              let back : step_beq asked st ≡ false =
                beq_false ⦃e = step_eq⦄ asked st
                  (λ e. cc (other, (step_beq_iff st asked).1 (sym e))) in
              ap (on_child d (λ c. field_at k c))
                (other_child st asked new (add_moves ms f) n other)
              ∙ rw back refl
        ]

  NewAs-moves :
      ((seg : Bytes) → field (static_info seg) ≡ d)
      → ((seg : Bytes) → field (param_info seg) ≡ d)
      → ((seg : Bytes) → field (wildcard_info seg) ≡ d)
      → (segs : List Bytes) → NewAs (moves segs)
  unfolding moves
  NewAs-moves s p w [] = tt
  NewAs-moves s p w (seg ∷ segs) =
      either_branch NewAs (is_static_seg seg) (s seg, NewAs-moves s p w segs)
        (either_branch NewAs (is_param_seg seg) (p seg, NewAs-moves s p w segs)
          (either_branch NewAs (is_wildcard_seg seg) (w seg, tt) (NewAs-moves s p w segs)))

  -- The route changes the field of the node at its key as `f` does, and that of no other.
  pub field_at-add_segs :
      (f : Info H M → Info H M) (g : X → X)
      → ((i : Info H M) → field (f i) ≡ g (field i))
      → ((seg : Bytes) → field (static_info seg) ≡ d)
      → ((seg : Bytes) → field (param_info seg) ≡ d)
      → ((seg : Bytes) → field (wildcard_info seg) ≡ d)
      → (segs : List Bytes) (k : List Step) (n : Node H M)
      → field_at k (add_segs segs f n)
        ≡ (if list_beq k (key segs) then g (field_at k n) else field_at k n)
  field_at-add_segs f g does s p w segs k n =
      rw (add_segs-moves segs f n, sym (steps-moves H M segs))
        (field_at-add_moves f g does (moves segs) k n (NewAs-moves s p w segs))

module _ {H M : Type 0} where
  -- Whether there is a node at the end of a way.
  abbrev pub has : List Step → Node H M → Bool
  has k n = field_at (λ _. true) false k n

  pub has-leaf : (k p : List Step) (new : Info H M) → (has k (leaf new) || starts k p) ≡ starts k p
  unfolding find_static_child find_param_child find_wildcard_child
  has-leaf [] p new = refl
  has-leaf (to_static seg ∷ k) p new = refl
  has-leaf (to_param ∷ k) p new = refl
  has-leaf (to_wildcard ∷ k) p new = refl

  has-add_moves :
      (f : Info H M → Info H M) (ms : List (Step × Info H M)) (k : List Step) (n : Node H M)
      → has k (add_moves ms f n) ≡ (has k n || starts k (steps ms))
  unfolding add_moves find_static_child find_param_child find_wildcard_child
  has-add_moves f ms [] n = refl
  has-add_moves f [] (to_static seg ∷ k) (node i cs p w) = sym (or_false _)
  has-add_moves f [] (to_param ∷ k) (node i cs p w) = sym (or_false _)
  has-add_moves f [] (to_wildcard ∷ k) (node i cs p w) = sym (or_false _)
  has-add_moves f ((st, new) ∷ ms) (asked ∷ k) n =
      let grown : has k (add_moves ms f (or_leaf new (child_at asked n)))
          ≡ (has (asked ∷ k) n || starts k (steps ms)) =
        elim (Option-cases (child_at asked n)) [
          | inl e ↦
              rw (field_at-none {H = H} {M = M} (λ _. true) false asked k n e, e)
                (has-add_moves f ms k (leaf new) ∙ has-leaf k (steps ms) new)
          | inr (c, e) ↦
              rw (field_at-some {H = H} {M = M} (λ _. true) false asked k n c e, e)
                (has-add_moves f ms k c)
        ] in
      elim (Bool-cases (step_beq st asked)) [
        | inl same ↦
            ap (on_child false (λ c. has k c)) (grown_child st asked new (add_moves ms f) n same)
            ∙ grown
            ∙ rw same refl
        | inr other ↦
            ap (on_child false (λ c. has k c)) (other_child st asked new (add_moves ms f) n other)
            ∙ rw other (sym (or_false (has (asked ∷ k) n)))
      ]

  -- There is a node where there was one, and on the way of the route.
  pub has-add_segs :
      (f : Info H M → Info H M) (segs : List Bytes) (k : List Step) (n : Node H M)
      → has k (add_segs segs f n) ≡ (has k n || starts k (key segs))
  has-add_segs f segs k n =
      rw (add_segs-moves segs f n, sym (steps-moves H M segs)) (has-add_moves f (moves segs) k n)
