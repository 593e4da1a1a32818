-- ===== src/Config/Settings.antt =====
-- The settings of one target in `Validate` of internal/config/load.go.
use Prim.Native.Nat.{◌/◌, ◌%◌}
use config_sync_nginx.Base.{
  ℕ, String, Bool, not, ◌&&◌, ◌||◌, ◌==◌, ◌<>◌, List, [], ◌∷◌, none, some, other, Fallible, ok, err,
  ◌>>=◌, ◌>>◌, fail_if, if◌then◌else◌, nat_eq, ltb,
}
use config_sync_nginx.Base.Dict.{lookup}
use config_sync_nginx.Base.Int.{is_below}
use config_sync_nginx.Base.Text.{codes, contains_code, has_prefix}
use config_sync_nginx.Base.FilePath.{is_abs, clean}
use config_sync_nginx.State.{Target, HealthCheck}
use config_sync_nginx.Config.Types.{Config, Repo, Url, Outside}

-- The loop over the addresses of a health check: `validateCheck`.
unfoldable pub is_http_url : Url → Bool
is_http_url u = not (u.host == "") && (u.scheme == "http" || u.scheme == "https") && not u.has_user

unfoldable pub validate_check : Outside → HealthCheck → Fallible HealthCheck
unfolding is_http_url
validate_check o h = elim (o.parse_url h.url) [
  | err e ↦ err (other "invalid health URL")
  | ok u ↦ do
    fail_if (not (is_http_url u)) (other "invalid health URL")
    let status = if nat_eq h.status 0 then 200 else h.status
    fail_if (ltb status 100 || ltb 599 status) (other "invalid health status")
    ok (record h { status = status })
]

unfoldable pub validate_checks : Outside → Bool → List HealthCheck → Fallible (List HealthCheck)
unfolding validate_check
validate_checks o with_content [] = ok []
validate_checks o with_content (h ∷ hs) = do
  checked ← validate_check o h
  fail_if (with_content && h.contains == "")
      (other "health_checks must verify content, not status alone")
  rest ← validate_checks o with_content hs
  ok (checked ∷ rest)

-- `v > 0777 || v&0022 != 0`.
unfoldable pub is_bad_mode : ℕ → Bool
is_bad_mode v = ltb 511 v || nat_eq ((v / 2) % 2) 1 || nat_eq ((v / 16) % 2) 1

unfoldable pub check_file_mode : Outside → String → Fallible (Unit {0})
unfolding is_bad_mode
check_file_mode o mode = elim (o.parse_octal mode) [
  | err e ↦ err (other "file_mode must not permit group/world writes")
  | ok v ↦ fail_if (is_bad_mode v) (other "file_mode must not permit group/world writes")
]

-- The repository of a release type that comes from Git.
unfoldable pub check_repo : Repo → Url → Fallible (Unit {0})
unfolding is_abs
check_repo repo u = do
  fail_if (u.has_user || not (u.raw_query == "") || not (u.fragment == ""))
      (other "invalid repository URL or embedded credentials")
  if u.scheme == "file"
      then fail_if (not repo.allow_local || not (u.host == "") || not (is_abs u.path))
          (other "local repositories require allow_local and empty host")
      else fail_if (not (u.scheme == "https") || u.host == "" || repo.gitlab_token == "")
          (other "repository requires https URL and gitlab_token")

unfoldable pub check_git : Outside → Config → Target → Fallible (Unit {0})
unfolding check_repo lookup
check_git o c t = elim (lookup t.type c.repos) [
  | none ↦ err (other ("missing repos." <> t.type))
  | some repo ↦ elim (o.parse_url repo.url) [
    | err e ↦ err (other "invalid repository URL or embedded credentials")
    | ok u ↦ check_repo repo u
  ]
]

-- The settings of a frontend.
unfoldable pub check_frontend : Outside → Config → Target → Fallible (Unit {0})
unfolding is_http_url
check_frontend o c t = do
  fail_if (t.shared_assets && is_below 1 c.asset_retention)
      (other "frontend requires positive asset_retention")
  fail_if (t.shared_assets && t.public_base_url == "")
      (other "shared_assets requires public_base_url")
  if t.public_base_url == "" then ok tt else elim (o.parse_url t.public_base_url) [
    | err e ↦ err (other "frontend requires public_base_url")
    | ok u ↦
        fail_if (not (is_http_url u) || not (u.raw_query == "") || not (u.fragment == ""))
          (other "frontend requires public_base_url")
  ]

-- `filepath.IsLocal`.
unfoldable pub is_local : String → Bool
unfolding is_abs clean has_prefix
is_local f =
    not (f == "") && not (is_abs f) && not (clean f == "..") && not (has_prefix (clean f) "../")

unfoldable pub check_required : List String → Fallible (Unit {0})
unfolding is_local
check_required [] = ok tt
check_required (f ∷ fs) = do
  fail_if (not (is_local f) || contains_code 92 (codes f)) (other "invalid required_files entry")
  check_required fs
