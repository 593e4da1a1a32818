-- ===== src/Release/Identity.antt =====
-- internal/domain/release/identity.go and repo.go, and the patterns of validate.go. The patterns
-- are read on code points; `^` and `$` mean that the whole text matches.
use config_sync_nginx.Base.{
  ℕ, suc, zero, String, Bool, true, false, ◌&&◌, ◌||◌, not, List, [], ◌∷◌, Option, none, some,
  Fallible, ok, err, invalid_request, leb, nat_eq, length, all, ◌==◌, ◌<>◌, if◌then◌else◌,
}
use config_sync_nginx.Base.Dict.{Dict, lookup}
use config_sync_nginx.Base.Text.{codes, trim_space, after_prefix}
use config_sync_nginx.Release.Types.{
  ApplyRequest, ReleaseType, release_type_config, release_type_whitelist,
  release_type_frontend_static,
}

-- `[0-9a-f]`.
abbrev pub is_hex : ℕ → Bool
is_hex c = (leb b'0' c && leb c b'9') || (leb b'a' c && leb c b'f')

-- `[A-Za-z0-9]`.
abbrev pub is_alnum : ℕ → Bool
is_alnum c = (leb b'A' c && leb c b'Z') || (leb b'a' c && leb c b'z') || (leb b'0' c && leb c b'9')

-- `[A-Za-z0-9_.-]`.
abbrev pub is_site_code : ℕ → Bool
is_site_code c = is_alnum c || nat_eq c b'_' || nat_eq c b'.' || nat_eq c b'-'

-- What is left behind `n` hexadecimal digits.
unfoldable pub after_hex : ℕ → List ℕ → Option (List ℕ)
after_hex zero cs = some cs
after_hex (suc n) [] = none
after_hex (suc n) (c ∷ cs) = if is_hex c then after_hex n cs else none

unfoldable pub after_dash : List ℕ → Option (List ℕ)
after_dash [] = none
after_dash (c ∷ cs) = if nat_eq c b'-' then some cs else none

abbrev pub then_match : Option (List ℕ) → (List ℕ → Option (List ℕ)) → Option (List ℕ)
then_match none f = none
then_match (some cs) f = f cs

abbrev pub is_end : Option (List ℕ) → Bool
is_end none = false
is_end (some []) = true
is_end (some (c ∷ cs)) = false

unfoldable pub hex_group : ℕ → List ℕ → Option (List ℕ)
unfolding after_hex after_dash
hex_group n cs = then_match (after_hex n cs) after_dash

-- `IsID`: a UUID in lower case.
unfoldable pub is_id : String → Bool
unfolding hex_group after_hex
is_id v = is_end (
    then_match
      (then_match (then_match (then_match (hex_group 8 (codes v)) (hex_group 4)) (hex_group 4))
        (hex_group 4))
      (after_hex 12))

-- `IsCommit`: 40 or 64 hexadecimal digits.
unfoldable pub is_commit : String → Bool
is_commit v = all is_hex (codes v) && (nat_eq (length (codes v)) 40 || nat_eq (length (codes v)) 64)

-- `IsArtifactDigest`: `sha256:` and 64 hexadecimal digits.
unfoldable pub is_artifact_digest : String → Bool
unfolding after_prefix after_hex
is_artifact_digest s = is_end (then_match (after_prefix (codes "sha256:") (codes s)) (after_hex 64))

-- `ValidTargetID`.
unfoldable pub valid_target_id : String → Bool
valid_target_id id = nat_eq (length (codes id)) 64 && all is_hex (codes id)

-- `strings.Contains(s, "..")`.
unfoldable pub has_dots : List ℕ → Bool
has_dots [] = false
has_dots (c ∷ []) = false
has_dots (c ∷ d ∷ cs) = (nat_eq c b'.' && nat_eq d b'.') || has_dots (d ∷ cs)

unfoldable pub matches_site : List ℕ → Bool
matches_site [] = false
matches_site (c ∷ cs) = is_alnum c && all is_site_code cs && leb (length cs) 127

-- `ValidateRepoSiteDirectoryName`.
unfoldable pub validate_repo_site_directory_name : String → Fallible (Unit {0})
unfolding matches_site has_dots
validate_repo_site_directory_name s =
    if not (matches_site (codes s))
      || has_dots (codes s)
      || s == "current"
      || s == "latest"
      || s == "releases"
      || s == "assets"
    then err (invalid_request "server_name" "须为安全、非保留的单段站点名称")
    else ok tt

-- A key that a Go map lacks reads as the empty text.
unfoldable pub get_param : String → Dict String → String
unfolding lookup
get_param k p = elim (lookup k p) [ none ↦ "" | some v ↦ v ]

-- `ServerIdentity`.
unfoldable pub server_identity : Dict String → String
unfolding get_param trim_space
server_identity p = trim_space (get_param "server_name" p)

-- `EffectiveVersion`.
unfoldable pub effective_version : ApplyRequest → String
effective_version r = if r.version == "" then r.commit_id else r.version

unfoldable pub is_release_type : ReleaseType → Bool
is_release_type t =
    t == release_type_config || t == release_type_whitelist || t == release_type_frontend_static

-- `ResolveApplySourceRepo`.
unfoldable pub resolve_apply_source_repo : ApplyRequest → Fallible ApplyRequest
unfolding is_release_type trim_space
resolve_apply_source_repo r =
    if not (is_release_type r.type)
    then err (invalid_request "type" "不支持的发布类型")
    else if trim_space r.source_repo == "" || trim_space r.source_repo == r.type
    then ok (record r { source_repo = r.type })
    else err (invalid_request "source_repo" ("请省略该字段，或填写为 " <> r.type <> "（须与 type 一致）"))
