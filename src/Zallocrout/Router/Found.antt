-- ===== src/Zallocrout/Router/Found.antt =====
-- What Match finds, by the nodes of the tree and their fields.
use go_kitbox.Prelude.{
  ℕ, ◌≡◌, refl, sym, ap, ◌∙◌, Bool, true, false, List, [], ◌∷◌, ◌++◌, Option, none, some, length,
  ◌==◌, ==_iff, if◌then◌else◌, Option-cases, Bool-cases, inl, inr, length-append, append_assoc,
  append-nil, arith,
}
use mathlib.Core.List.{reverse, reverse-cons}
use mathlib.Core.Path.{subst}
use go_kitbox.Prelude.Keys.{list_eq, nat_eq}
use go_kitbox.Prelude.Maps.{lookup}
use go_kitbox.Prelude.Run.{Run, ok, err, ◌>>=◌}
use go_kitbox.Zallocrout.Paths.{
  Bytes, slash, Stop, needs_normalization, normalize_path_bytes, split_path_to_compressed_segs,
}
use go_kitbox.Zallocrout.Paths.Segments.{segments, resolve, spell, spell_root, canonical}
use go_kitbox.Zallocrout.Paths.Normal.{normalize_path_bytes-canonical}
use go_kitbox.Zallocrout.Paths.Split.{split_path_to_compressed_segs-segments}
use go_kitbox.Zallocrout.Paths.Clean.{needs_normalization-normalize_path_bytes}
use go_kitbox.Zallocrout.Paths.Names.{segments-canonical}
use go_kitbox.Zallocrout.Tree.{Info, Node, Step, Param, Arrived, MatchEnd, not_found, info, walk}
use go_kitbox.Zallocrout.Tree.Places.{child_at, node_at, on_child}
use go_kitbox.Zallocrout.Tree.Adding.{field_at, field_at-some, has}
use go_kitbox.Zallocrout.Tree.Walking.{bars, greedy, bound, fill, Walks, lost, arrives, walk-Walks}
use go_kitbox.Zallocrout.Router.{Answer, normalized, rename, remap, find_route}

-- The names of a path, the first one first.
abbrev pub names_of : Bytes → List Bytes
names_of path = reverse (resolve [] (segments path))

spell_root-nonempty : (names : List Bytes) → (length (spell_root names) == 0) ≡ false
spell_root-nonempty [] = refl
spell_root-nonempty (name ∷ names) = ground (arith, length-append (spell names) (slash ∷ name))

ok_eq : {p q : Bytes} → ◌≡◌ {A = Run Stop Bytes} (ok p) (ok q) → p ≡ q
ok_eq h = cc

-- Whether it is normalised or not, Match walks over the canonical form of the path.
pub normalized-canonical : (b : ℕ) (bs : Bytes) → normalized (b ∷ bs) ≡ ok (canonical (b ∷ bs))
unfolding normalized
normalized-canonical b bs = elim (Bool-cases (needs_normalization (b ∷ bs))) [
  | inl needs ↦
      rw
        (
          needs,
          normalize_path_bytes-canonical (b ∷ bs),
          spell_root-nonempty (resolve [] (segments (b ∷ bs))),
          normalized,
        )
        refl
  | inr clean ↦
      let same =
        sym (needs_normalization-normalize_path_bytes (b ∷ bs) clean)
        ∙ normalize_path_bytes-canonical (b ∷ bs) in
      rw (clean, normalized) (ap ok (ok_eq same))
]

bars-snoc : (segs : List Bytes) (seg : Bytes) → bars (segs ++ seg ∷ []) ≡ bars segs ++ slash ∷ seg
bars-snoc [] seg = ap (λ w. slash ∷ w) (append-nil seg)
bars-snoc (s ∷ segs) seg =
    ap (λ w. slash ∷ (s ++ w)) (bars-snoc segs seg)
    ∙ ap (λ w. slash ∷ w) (sym (append_assoc s (bars segs) (slash ∷ seg)))

spell-bars : (names : List Bytes) → spell names ≡ bars (reverse names)
spell-bars [] = refl
spell-bars (name ∷ names) =
    ap (λ w. w ++ slash ∷ name) (spell-bars names)
    ∙ sym (bars-snoc (reverse names) name)
    ∙ ap bars (sym (reverse-cons name names))

-- All that Match reads of the trees, for one method: which nodes there are, and their fields.
pub record View (Handler Middleware : Type 0) : Type 0 where
  pub nodes : List Step → Bool
  pub handlers : List Step → Option Handler
  pub chains : List Step → List Middleware
  pub route_names : List Step → List Bytes
  pub node_names : List Step → Bytes

-- The values under the names of a route, if these are as many, and else as they are.
abbrev pub zip_names : List Bytes → List Param → List Param
zip_names [] params = []
zip_names (name ∷ names) [] = []
zip_names (name ∷ names) ((k, v) ∷ params) = (name, v) ∷ zip_names names params

abbrev pub named : List Bytes → List Param → List Param
named names params = if length names == length params then zip_names names params else params

zip_names-rename :
    (names : List Bytes) (params : List Param)
    → length names ≡ length params
    → zip_names names params ≡ rename names params
zip_names-rename [] [] h = refl
zip_names-rename [] (p ∷ params) h = absurd (omega (arith, h))
zip_names-rename (name ∷ names) [] h = refl
zip_names-rename (name ∷ names) ((k, v) ∷ params) h =
    ap (λ ps. (name, v) ∷ ps) (zip_names-rename names params (omega (arith, h)))

named-remap : (names : List Bytes) (params : List Param) → named names params ≡ remap names params
named-remap [] [] = refl
named-remap [] (p ∷ params) = ground arith
named-remap (name ∷ names) params = elim (Bool-cases (length (name ∷ names) == length params)) [
  | inl same ↦ ground (
    arith,
    same,
    zip_names-rename (name ∷ names) params
        ((==_iff (length (name ∷ names)) (length params)).0 same),
  )
  | inr other ↦ ground (arith, other)
]

module _ {H M : Type 0} where
  abbrev pub root_field : {X : Type 0} → (Info H M → X) → X → Option (Node H M) → List Step → X
  root_field f d root k = on_child d (λ n. field_at f d k n) root

  abbrev pub view_of : Option (Node H M) → View H M
  view_of root = record {
    nodes = root_field (λ _. true) false root;
    handlers = root_field (λ i. i.handler) none root;
    chains = root_field (λ i. i.middlewares) [] root;
    route_names = root_field (λ i. i.param_names) [] root;
    node_names = root_field (λ i. i.param_name) [] root;
  }

  abbrev pub build : Option H → List M → List Bytes → List Param → Option (Answer H M)
  build none chain names params = none
  build (some h) chain names params =
      some (record { handler = h; middlewares = chain; params = named names params })

  -- The answer at the end of a way.
  abbrev pub answer_at : View H M → List Bytes → List Step → Option (Answer H M)
  answer_at v segs k =
      build (v.handlers k) (v.chains k) (v.route_names k) (fill [] (bound v.node_names k segs))

  -- The answer for the names of a path.
  unfoldable pub view_answer : View H M → List Bytes → Option (Answer H M)
  view_answer v segs = on_child none (answer_at v segs) (greedy v.nodes segs)

  -- An answer, or that there is none; but no panic, and fuel enough.
  abbrev pub Gives : Option (Answer H M) → Run MatchEnd (Arrived H M × Answer H M) → Type 0
  Gives none r = r ≡ err not_found
  Gives (some a) r = (there : Arrived H M) × (r ≡ ok (there, a))

  walk_root :
      (names : List Bytes) (root : Node H M)
      → Walks
          (reverse names)
          root
          []
          (greedy (λ k. has k root) (reverse names))
          (walk (spell_root names) (reverse names) 1 [] root)
  unfolding greedy walk bound
  walk_root [] root = arrives _ refl refl
  walk_root (name ∷ names) root =
      rw (spell-bars (name ∷ names)) (walk-Walks (reverse (name ∷ names)) [] [] root)

  field_at-node_at :
      {X : Type 0} (f : Info H M → X) (d : X) (k : List Step) (n c : Node H M)
      → node_at k n ≡ some c
      → field_at f d k n ≡ f (info c)
  field_at-node_at f d [] n c e = cc e
  field_at-node_at f d (st ∷ k) n c e = elim (Option-cases (child_at st n)) [
    | inl gone ↦ cc (sym e ∙ ap (on_child none (λ m. node_at k m)) gone)
    | inr (m, here) ↦
        field_at-some f d st k n m here
        ∙ field_at-node_at f d k m c (sym (ap (on_child none (λ m'. node_at k m')) here) ∙ e)
  ]

  -- The last step of find_route.
  abbrev pub finish :
      Arrived H M
      → List M
      → List Bytes
      → List Param
      → Option H
      → Run MatchEnd (Arrived H M × Answer H M)
  finish a chain names params handler =
      on_child (err not_found)
        (λ h. ok (a, record { handler = h; middlewares = chain; params = remap names params }))
        handler

  finish-Gives :
      (a : Arrived H M) (chain : List M) (names : List Bytes) (params : List Param)
      (handler : Option H)
      → Gives (build handler chain names params) (finish a chain names params handler)
  finish-Gives a chain names params none = refl
  finish-Gives a chain names params (some h) = (
    a,
    ap (λ ps. ok (a, record { handler = h; middlewares = chain; params = ps }))
        (sym (named-remap names params)),
  )

  abbrev pub final : Arrived H M → Run MatchEnd (Arrived H M × Answer H M)
  final a =
      finish a (info a.current).middlewares (info a.current).param_names a.params
        (info a.current).handler

  ended :
      (segs : List Bytes) (n : Node H M) {o : Option (List Step)} {r : Run MatchEnd (Arrived H M)}
      → Walks segs n [] o r
      → Gives (on_child none (answer_at (view_of (some n)) segs) o) (r >>= final)
  ended segs n lost = refl
  ended segs n (arrives a there p) =
      let hs = field_at-node_at (λ i. i.handler) none a.trail n a.current there in
      let ms = field_at-node_at (λ i. i.middlewares) [] a.trail n a.current there in
      let ns = field_at-node_at (λ i. i.param_names) [] a.trail n a.current there in
      let same : answer_at (view_of (some n)) segs a.trail
          ≡ build (info a.current).handler (info a.current).middlewares (info a.current).param_names
              a.params =
        λ i. build (hs i) (ms i) (ns i) (sym p i) in
      subst (λ o. Gives o (final a)) (sym same) (finish-Gives a _ _ _ _)

  no_answer :
      (o : Option (List Step)) → on_child {X = Option (Answer H M)} none (λ _. none) o ≡ none
  no_answer none = refl
  no_answer (some k) = refl

  -- Match without its cache gives the answer that the nodes and their fields determine.
  pub find_route-view :
      (method : Bytes) (b : ℕ) (bs : Bytes) (roots : List (Bytes × Node H M))
      → Gives
          (view_answer (view_of (lookup method roots)) (names_of (b ∷ bs)))
          (find_route method (b ∷ bs) roots)
  unfolding find_route view_answer
  find_route-view method b bs roots =
      let split : split_path_to_compressed_segs (canonical (b ∷ bs)) ≡ names_of (b ∷ bs) =
        split_path_to_compressed_segs-segments (canonical (b ∷ bs)) ∙ segments-canonical (b ∷ bs) in
      elim (Option-cases (lookup method roots)) [
        | inl gone ↦
            subst
              (λ root.
                Gives (view_answer (view_of root) (names_of (b ∷ bs)))
                  (find_route method (b ∷ bs) roots))
              (sym gone)
              (rw (normalized-canonical b bs, gone, find_route)
                (subst (λ o. Gives o (err not_found))
                  (sym (no_answer (greedy (λ _. false) (names_of (b ∷ bs))))) refl))
        | inr (root, here) ↦
            subst
              (λ root.
                Gives (view_answer (view_of root) (names_of (b ∷ bs)))
                  (find_route method (b ∷ bs) roots))
              (sym here)
              (rw (normalized-canonical b bs, here, split, find_route)
                (ended (names_of (b ∷ bs)) root (walk_root (resolve [] (segments (b ∷ bs))) root)))
      ]

  pub find_route_empty :
      (method : Bytes) (roots : List (Bytes × Node H M))
      → find_route method [] roots ≡ err not_found
  unfolding find_route normalized needs_normalization normalize_path_bytes
  find_route_empty method roots = refl
