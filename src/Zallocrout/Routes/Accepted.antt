-- ===== src/Zallocrout/Routes/Accepted.antt =====
-- What validateRoute guarantees of the routes that it accepts.
use Prim.{Unit, tt}
use go_kitbox.Prelude.{
  ℕ, suc, ◌+◌, ◌≡◌, inl, inr, refl, sym, ap, ◌∙◌, true, List, [], ◌∷◌, length, drop, ◌==◌,
  suc-eq_zero, Bool-cases, arith,
}
use go_kitbox.Prelude.Run.{Run, ok, err, panic, ◌>>=◌}
use go_kitbox.Zallocrout.Paths.{Bytes, colon, star, is_param_seg, is_wildcard_seg, is_static_seg}
use go_kitbox.Zallocrout.Paths.Segments.{parts, drop_empty, segments}
use go_kitbox.Zallocrout.Routes.{
  RouteError, name_bytes, check_param, check_wildcard, check_segs, validate_route,
}

-- A segment of a route: a static one, `:name`, or, at the end, `*name`.
pub data IsLegal (seg : Bytes) (rest : List Bytes) : Type 0 where
  static : is_static_seg seg ≡ true → IsLegal seg rest
  param : is_param_seg seg ≡ true → name_bytes (drop 1 seg) ≡ true → IsLegal seg rest
  wildcard : is_wildcard_seg seg ≡ true → rest ≡ [] → IsLegal seg rest

abbrev pub AllLegal : List Bytes → Type 0
AllLegal [] = Unit
AllLegal (seg ∷ segs) = IsLegal seg segs × AllLegal segs

then_ok : (m k : Run RouteError (Unit {0})) → (m >>= λ _. k) ≡ ok tt → (m ≡ ok tt) × (k ≡ ok tt)
then_ok (ok tt) k h = (refl, h)
then_ok (err e) k h = cc
then_ok panic k h = cc

no_more : (segs : List Bytes) → length segs ≡ 0 → segs ≡ []
no_more [] h = refl
no_more (seg ∷ segs) h = absurd (omega (arith, h))

-- The tests of check_param and check_wildcard on a segment with at least one byte.
segment-IsLegal :
    (b : ℕ) (seg : Bytes) (i total : ℕ) (segs : List Bytes)
    → i + suc (length segs) ≡ total
    → check_param (b ∷ seg) ≡ ok tt
    → check_wildcard i total (b ∷ seg) ≡ ok tt
    → IsLegal (b ∷ seg) (drop_empty segs)
unfolding check_param check_wildcard is_param_seg is_wildcard_seg is_static_seg drop_empty
segment-IsLegal b seg i total segs e p w = elim (Bool-cases (b == colon)) [
  | inl is_param ↦ elim (Bool-cases (name_bytes seg)) [
    | inl good ↦ param (ground (arith, p, is_param)) good
    | inr bad ↦ absurd (ground (arith, p, is_param, bad))
  ]
  | inr no_param ↦ elim (Bool-cases (b == star)) [
    | inl is_wild ↦
        wildcard (ground (arith, w, is_wild))
          (ap drop_empty (no_more segs (ground (arith, w, is_wild, e))))
    | inr plain ↦ static (ground (arith, no_param, plain))
  ]
]

check_segs-AllLegal :
    (i total : ℕ) (segs : List Bytes)
    → i + length segs ≡ total
    → check_segs i total segs ≡ ok tt
    → AllLegal (drop_empty segs)
unfolding check_segs drop_empty
check_segs-AllLegal i total [] e h = tt
check_segs-AllLegal i total ([] ∷ segs) e h =
    check_segs-AllLegal (suc i) total segs (omega (arith, e)) h
check_segs-AllLegal i total ((b ∷ seg) ∷ segs) e h =
    let tests : Run RouteError (Unit {0}) =
      check_param (b ∷ seg) >>= λ _. check_wildcard i total (b ∷ seg) in
    let step : check_segs i total ((b ∷ seg) ∷ segs)
        ≡ (tests >>= λ _. check_segs (suc i) total segs) =
      rw (suc-eq_zero (length seg), check_segs) refl in
    let (checks, rest) = then_ok tests (check_segs (suc i) total segs) (sym step ∙ h) in
    let (p, w) = then_ok (check_param (b ∷ seg)) (check_wildcard i total (b ∷ seg)) checks in
    (
      segment-IsLegal b seg i total segs e p w,
      check_segs-AllLegal (suc i) total segs (omega (arith, e)) rest,
    )

-- Every segment of an accepted route is static, or a parameter with a name of letters, digits and
-- underscores, or a wildcard; and a wildcard is its last segment.
pub validate_route-AllLegal :
    (path : Bytes) → validate_route path ≡ ok tt → AllLegal (segments path)
unfolding validate_route segments
validate_route-AllLegal path h =
    check_segs-AllLegal 0 (length (parts path)) (parts path) (omega arith) (ground (arith, h))
