-- ===== src/Base/FilePath.antt =====
-- What the code uses of Go's `path/filepath` on Unix: paths as their segments.
use Prim.Native.Char.{code}
use Prim.Native.String.{String, slice, ◌++◌ as ◌<>◌}
use mathlib.Core.Bool.{Bool, true, false, ◌&&◌, not, ◌||◌}
use mathlib.Core.List.{List, [], ◌∷◌, ◌++◌, reverse, map}
use text.Mathlib.Text.{◌==◌}
use config_sync_nginx.Base.Tests.{nat_eq, if◌then◌else◌}
use config_sync_nginx.Base.Text.{grow_first}
use config_sync_nginx.Base.Fail.{Fallible, ok, err, other}

-- `strings.Split(p, "/")`.
unfoldable pub split_path : String → List String
unfolding grow_first
split_path String.[] = String.[] ∷ []
split_path (String.◌∷◌ c s) =
    if nat_eq (code c) b'/' then String.[] ∷ split_path s else grow_first c (split_path s)

unfoldable pub join_segments : List String → String
join_segments [] = ""
join_segments (s ∷ []) = s
join_segments (s ∷ t ∷ ss) = s <> "/" <> join_segments (t ∷ ss)

unfoldable pub is_abs : String → Bool
is_abs String.[] = false
is_abs (String.◌∷◌ c s) = nat_eq (code c) b'/'

-- `..` behind the segments already read, the last one first.
unfoldable pub step_up : Bool → List String → List String
step_up rooted [] = if rooted then [] else ".." ∷ []
step_up rooted (top ∷ rest) = if top == ".." then ".." ∷ top ∷ rest else rest

unfoldable pub clean_loop : Bool → List String → List String → List String
unfolding step_up
clean_loop rooted stack [] = reverse stack
clean_loop rooted stack (s ∷ ss) =
    clean_loop rooted
      (if s == "" || s == "." then stack else if s == ".." then step_up rooted stack else s ∷ stack)
      ss

-- The segments of `filepath.Clean(p)`.
unfoldable pub clean_segments : String → List String
unfolding clean_loop split_path is_abs
clean_segments p = clean_loop (is_abs p) [] (split_path p)

unfoldable pub print_path : Bool → List String → String
unfolding join_segments
print_path true ss = "/" <> join_segments ss
print_path false [] = "."
print_path false (s ∷ ss) = join_segments (s ∷ ss)

-- `filepath.Clean`.
unfoldable pub clean : String → String
unfolding print_path clean_segments is_abs
clean p = print_path (is_abs p) (clean_segments p)

-- `filepath.Join` of two non-empty elements.
unfoldable pub join : String → String → String
unfolding clean
join a b = clean (a <> "/" <> b)

-- The segments left of the base and of the target behind their common front.
unfoldable pub strip_common : List String → List String → List String × List String
strip_common [] ts = ([], ts)
strip_common (b ∷ bs) [] = (b ∷ bs, [])
strip_common (b ∷ bs) (t ∷ ts) =
    let rest = strip_common bs ts in if b == t then rest else (b ∷ bs, t ∷ ts)

abbrev pub xor_bool : Bool → Bool → Bool
xor_bool true b = not b
xor_bool false b = b

unfoldable pub rel_result : List String → List String → Fallible String
unfolding join_segments
rel_result [] ts = ok (join_segments ts)
rel_result (b ∷ bs) ts =
    if b == ".."
    then err (other "Rel: can't make target relative to base")
    else ok (join_segments (map (λ _. "..") (b ∷ bs) ++ ts))

-- `filepath.Rel`.
unfoldable pub rel : String → String → Fallible String
unfolding rel_result strip_common clean
rel base target =
    let (bs, ts) = strip_common (clean_segments base) (clean_segments target) in
    if clean base == clean target
    then ok "."
    else if xor_bool (is_abs base) (is_abs target)
    then err (other "Rel: can't make target relative to base")
    else rel_result bs ts

-- `fsutil.Within`.
unfoldable pub is_inside : Fallible String → Bool
is_inside (err e) = false
is_inside (ok r) = not (r == "..") && not (slice r 0 3 == "../")

unfoldable pub within : String → String → Bool
unfolding is_inside rel
within parent child = is_inside (rel parent child)
