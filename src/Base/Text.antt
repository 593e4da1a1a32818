-- ===== src/Base/Text.antt =====
-- What the code uses of Go's `strings` package, on native texts.
use Prim.Native.Nat.{ℕ}
use Prim.Native.Char.{Char, code}
use Prim.Native.Nat.{◌-◌}
use Prim.Native.String.{String, char_at, ◌++◌ as ◌<>◌}
use mathlib.Core.Bool.{Bool, false, ◌&&◌, ◌||◌}
use mathlib.Core.List.{List, [], ◌∷◌}
use mathlib.Core.Option.{Option, none, some}
use config_sync_nginx.Base.Lists.{is_some}
use config_sync_nginx.Base.Tests.{leb, nat_eq, if◌then◌else◌}

-- The code points of a text.
abbrev pub codes : String → List ℕ
codes String.[] = []
codes (String.◌∷◌ c s) = code c ∷ codes s

-- `unicode.IsSpace`.
unfoldable pub is_space : ℕ → Bool
is_space c =
    (leb 9 c && leb c 13)
    || nat_eq c 32
    || nat_eq c 0x85
    || nat_eq c 0xa0
    || nat_eq c 0x1680
    || (leb 0x2000 c && leb c 0x200a)
    || nat_eq c 0x2028
    || nat_eq c 0x2029
    || nat_eq c 0x202f
    || nat_eq c 0x205f
    || nat_eq c 0x3000

unfoldable pub trim_left : String → String
trim_left String.[] = String.[]
trim_left (String.◌∷◌ c s) = if is_space (code c) then trim_left s else String.◌∷◌ c s

-- A character in front of a text whose end is trimmed.
unfoldable pub keep_front : Char → String → String
keep_front c String.[] = if is_space (code c) then String.[] else String.◌∷◌ c String.[]
keep_front c (String.◌∷◌ d s) = String.◌∷◌ c (String.◌∷◌ d s)

unfoldable pub trim_right : String → String
unfolding keep_front
trim_right String.[] = String.[]
trim_right (String.◌∷◌ c s) = keep_front c (trim_right s)

-- `strings.TrimSpace`.
unfoldable pub trim_space : String → String
unfolding trim_left trim_right is_space
trim_space s = trim_right (trim_left s)

unfoldable pub contains_code : ℕ → List ℕ → Bool
contains_code x [] = false
contains_code x (c ∷ cs) = nat_eq c x || contains_code x cs

-- `strings.TrimPrefix` and `strings.HasPrefix` on code points: the rest behind the prefix.
unfoldable pub after_prefix : List ℕ → List ℕ → Option (List ℕ)
after_prefix [] cs = some cs
after_prefix (p ∷ ps) [] = none
after_prefix (p ∷ ps) (c ∷ cs) = if nat_eq p c then after_prefix ps cs else none

-- `strings.ToLower` on ASCII. Other letters are left as they are: none of them has a lower case
-- letter in a commit identity, the one text that the code lowers.
unfoldable pub lower_char : Char → Char
lower_char c =
    if leb b'A' (code c) && leb (code c) b'Z'
    then char_at "abcdefghijklmnopqrstuvwxyz" (code c - b'A')
    else c

unfoldable pub to_lower : String → String
unfolding lower_char
to_lower String.[] = String.[]
to_lower (String.◌∷◌ c s) = String.◌∷◌ (lower_char c) (to_lower s)

-- `strings.HasPrefix`.
unfoldable pub has_prefix : String → String → Bool
unfolding after_prefix
has_prefix s prefix = is_some (after_prefix (codes prefix) (codes s))

-- `strings.Cut` at a character: what stands behind its first occurrence.
unfoldable pub cut_after : ℕ → String → Option String
cut_after x String.[] = none
cut_after x (String.◌∷◌ c s) = if nat_eq (code c) x then some s else cut_after x s

-- A character in front of the first segment.
unfoldable pub grow_first : Char → List String → List String
grow_first c [] = String.◌∷◌ c String.[] ∷ []
grow_first c (s ∷ ss) = String.◌∷◌ c s ∷ ss

-- `strings.Split` at a character.
unfoldable pub split_on : ℕ → String → List String
unfolding grow_first
split_on x String.[] = String.[] ∷ []
split_on x (String.◌∷◌ c s) =
    let rest = split_on x s in if nat_eq (code c) x then String.[] ∷ rest else grow_first c rest

-- `strings.Join` with a comma.
unfoldable pub join_commas : List String → String
join_commas [] = ""
join_commas (s ∷ []) = s
join_commas (s ∷ t ∷ ss) = s <> "," <> join_commas (t ∷ ss)
