-- ===== src/Zallocrout/Routes.antt =====
-- validateRoute of pkg/zallocrout/preprocess.go: the check of a route when it is registered. A range
-- over a string gives runes; a rune that is no ASCII byte is no letter, digit or underscore, and so are
-- its bytes, so that the bytes are checked here.
pub mod Accepted
use Prim.{Unit, tt}
use go_kitbox.Prelude.{
  ℕ, suc, ◌+◌, ◌-◌, Bool, true, false, not, ◌&&◌, ◌||◌, List, [], ◌∷◌, length, drop, leb, ◌==◌,
  if◌then◌else◌,
}
use go_kitbox.Prelude.Run.{Run, ok, err, ◌>>=◌}
use go_kitbox.Zallocrout.Paths.{Bytes, slash, dot, colon, star, at}
use go_kitbox.Zallocrout.Paths.Segments.{parts}

pub data RouteError : Type 0 where
  path_empty no_leading_slash double_slash dot_segment dot_dot_segment : RouteError
  param_empty param_name wildcard_empty wildcard_not_last : RouteError

unfoldable pub has_prefix : Bytes → Bytes → Bool
has_prefix [] bs = true
has_prefix (c ∷ cs) [] = false
has_prefix (c ∷ cs) (b ∷ bs) = c == b && has_prefix cs bs

-- `strings.Contains(path, sub)`
unfoldable pub contains : Bytes → Bytes → Bool
unfolding has_prefix
contains [] sub = has_prefix sub []
contains (b ∷ bs) sub = has_prefix sub (b ∷ bs) || contains bs sub

abbrev pub name_byte : ℕ → Bool
name_byte c =
    (leb b'a' c && leb c b'z')
    || (leb b'A' c && leb c b'Z')
    || (leb b'0' c && leb c b'9')
    || c == b'_'

abbrev pub name_bytes : Bytes → Bool
name_bytes [] = true
name_bytes (c ∷ cs) = name_byte c && name_bytes cs

unfoldable pub check_param : Bytes → Run RouteError (Unit {0})
check_param seg =
    if at seg 0 == colon
    then (if length seg == 1
        then err param_empty
        else (if name_bytes (drop 1 seg) then ok tt else err param_name))
    else ok tt

unfoldable pub check_wildcard : ℕ → ℕ → Bytes → Run RouteError (Unit {0})
check_wildcard i total seg =
    if at seg 0 == star
    then (if length seg == 1
        then err wildcard_empty
        else (if i == total - 1 then ok tt else err wildcard_not_last))
    else ok tt

-- The loop over the parts, of which the empty ones are passed over.
unfoldable pub check_segs : ℕ → ℕ → List Bytes → Run RouteError (Unit {0})
unfolding check_param check_wildcard
check_segs i total [] = ok tt
check_segs i total (seg ∷ segs) =
    (if length seg == 0 then ok tt else check_param seg >>= λ _. check_wildcard i total seg)
    >>= λ _. check_segs (suc i) total segs

unfoldable pub validate_route : Bytes → Run RouteError (Unit {0})
unfolding contains check_segs
validate_route path =
    if length path == 0
    then err path_empty
    else (if not (at path 0 == slash)
        then err no_leading_slash
        else (if contains path (slash ∷ slash ∷ [])
            then err double_slash
            else (if contains path (slash ∷ dot ∷ slash ∷ [])
                then err dot_segment
                else (if contains path (slash ∷ dot ∷ dot ∷ slash ∷ [])
                    then err dot_dot_segment
                    else check_segs 0 (length (parts path)) (parts path)))))
