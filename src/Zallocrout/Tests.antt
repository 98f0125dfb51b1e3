-- ===== src/Zallocrout/Tests.antt =====
-- The router on concrete inputs: the paths here, the calls in the child modules.
mod Codes
mod Calls
mod Answers
use Prim.{Unit, tt}
use go_kitbox.Prelude.{
  ℕ, ◌<◌, ◌≤◌, ◌≡◌, ◌⊎◌, refl, true, false, [], ◌∷◌, List, map, Option, none, some, length, take,
  arith,
}
use go_kitbox.Prelude.Maps.{lookup, insert}
use go_kitbox.Prelude.Run.{ok, ◌>>=◌, Returns}
use go_kitbox.Zallocrout.Paths.{
  Bytes, slash, needs_loop, needs_normalization, seg_end, push_segment, pop_segment, take_segment,
  normalize_loop, normalize_path_bytes, split_loop, split_path_to_compressed_segs, is_param_seg,
  is_wildcard_seg, is_static_seg,
}
use go_kitbox.Zallocrout.Paths.Segments.{parts, drop_empty, segments, canonical}
use go_kitbox.Zallocrout.Paths.Normal.{normalize_path_bytes-canonical}
use go_kitbox.Zallocrout.Paths.Split.{split_path_to_compressed_segs-segments}
use go_kitbox.Zallocrout.Paths.Clean.{needs_normalization-normalize_path_bytes}
use go_kitbox.Zallocrout.Routes.{
  has_prefix, contains, check_param, check_wildcard, check_segs, validate_route,
}
use go_kitbox.Zallocrout.Tests.Codes.{codes}
use go_kitbox.Zallocrout.Routes.Accepted.{AllLegal, validate_route-AllLegal}

normal1 : normalize_path_bytes (codes "/a//b/./c/../d/") ≡ ok (codes "/a/b/d")
unfolding normalize_path_bytes normalize_loop seg_end take_segment push_segment pop_segment
normal1 = refl

normal2 : normalize_path_bytes (codes "a/../../..") ≡ ok (codes "/")
unfolding normalize_path_bytes normalize_loop seg_end take_segment push_segment pop_segment
normal2 = refl

split1 : split_path_to_compressed_segs (codes "/a/bc//d/") ≡ codes "a" ∷ codes "bc" ∷ codes "d" ∷ []
unfolding split_path_to_compressed_segs split_loop
split1 = refl

normalize_path_bytes-canonical_example :
    normalize_path_bytes (codes "/a//b/../d/") ≡ ok (canonical (codes "/a//b/../d/"))
normalize_path_bytes-canonical_example = normalize_path_bytes-canonical (codes "/a//b/../d/")

split_path_to_compressed_segs-segments_example :
    split_path_to_compressed_segs (codes "/a//b/") ≡ segments (codes "/a//b/")
split_path_to_compressed_segs-segments_example =
    split_path_to_compressed_segs-segments (codes "/a//b/")

needs_normalization-normalize_path_bytes_example :
    normalize_path_bytes (codes "/users/42") ≡ ok (codes "/users/42")
unfolding needs_normalization needs_loop
needs_normalization-normalize_path_bytes_example =
    needs_normalization-normalize_path_bytes (codes "/users/42") refl

validate_route-AllLegal_example : AllLegal (segments (codes "/users/:id/*rest"))
unfolding validate_route has_prefix contains check_segs check_param check_wildcard parts
validate_route-AllLegal_example = validate_route-AllLegal (codes "/users/:id/*rest") refl
