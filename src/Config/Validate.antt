-- ===== src/Config/Validate.antt =====
-- `Validate` of internal/config/load.go, but for the lists of addresses.
use config_sync_nginx.Base.{
  ℕ, String, true, false, not, ◌&&◌, ◌||◌, ◌==◌, ◌<>◌, List, [], ◌∷◌, ◌++◌, other, Fallible, ok,
  err, ◌>>=◌, ◌>>◌, fail_if, if◌then◌else◌, nat_eq, ltb, len, length,
}
use config_sync_nginx.Base.Dict.{Dict, lookup, insert}
use config_sync_nginx.Base.Int.{is_below, ℤ, pos, int_eq}
use config_sync_nginx.Base.Keys.{has}
use config_sync_nginx.Base.Text.{trim_space}
use config_sync_nginx.Base.FilePath.{is_abs, join}
use config_sync_nginx.Release.Types.{
  release_type_config, release_type_whitelist, release_type_frontend_static,
}
use config_sync_nginx.Release.Identity.{validate_repo_site_directory_name, get_param}
use config_sync_nginx.State.{Target, is_template}
use config_sync_nginx.Config.Types.{Config, Outside}
use config_sync_nginx.Config.Settings.{
  validate_checks, check_file_mode, check_git, check_frontend, check_required,
}
use config_sync_nginx.Config.Resolve.{
  validate_artifact_repository, resolve_paths, repository_of, replace_from, overlaps_site,
}

-- A setting, or its value where it is left out.
abbrev pub or_default : ℕ → ℤ → ℤ
or_default d z = if int_eq z (pos 0) then pos d else z

-- The loop over the tokens.
unfoldable pub check_tokens : Dict String → Fallible (Unit {0})
unfolding trim_space
check_tokens [] = ok tt
check_tokens ((env, token) ∷ tokens) = do
  fail_if (not (trim_space env == env) || env == "" || ltb 64 (len env) || trim_space token == "")
      (other "invalid release_auth_tokens environment or empty token")
  check_tokens tokens

-- The environment of a node with a single token.
unfoldable pub single_env : String → Dict String → String
single_env env ((only, token) ∷ []) = if env == "" then only else env
single_env env [] = env
single_env env (a ∷ b ∷ tokens) = env

-- `filepath.Join(dir, "publish.lock")`.
unfoldable pub default_lock : String → String
unfolding join
default_lock data_dir = if data_dir == "" then "publish.lock" else join data_dir "publish.lock"

-- The `switch` on the type of a target.
unfoldable pub check_type : Outside → Config → Target → Fallible (Unit {0})
unfolding validate_artifact_repository repository_of is_abs
check_type o c t =
    if t.type == release_type_config || t.type == release_type_whitelist
    then ok tt
    else if t.type == release_type_frontend_static
    then (do
      validate_artifact_repository o (repository_of o c t "site")
      fail_if (not (is_abs c.oras.binary) || not (is_abs c.oras.registry_config))
          (other "frontend requires explicit absolute oras.binary and oras.registry_config")
      fail_if (not (c.oras.ca_file == "") && not (is_abs c.oras.ca_file))
          (other "oras.ca_file must be absolute"))
    else err (other "unsupported target type")

-- The keys that are seen: a template by its type, a site by its identity.
abbrev pub Seen : Type 0
Seen = Dict (Unit {0})

-- A template, or the name of a site.
unfoldable pub check_name : Target → Seen → Fallible Seen
unfolding is_template validate_repo_site_directory_name insert lookup
check_name t seen =
    if is_template t
    then (do
      fail_if (has ("type:" <> t.type) seen) (other "duplicate target type")
      ok (insert ("type:" <> t.type) tt seen))
    else (do validate_repo_site_directory_name t.server_name; ok seen)

-- The directory and the identity of a site.
unfoldable pub place_site :
    Outside → Config → List Target → Target → Seen → Fallible (Target × Seen)
unfolding resolve_paths replace_from overlaps_site insert lookup
place_site o c earlier t seen = do
  fail_if (c.env == "")
      (other "explicit site targets require env; use type-only targets for multiple environments")
  found ← resolve_paths o c t c.env
  let repository =
      if found.type == release_type_frontend_static && found.artifact_repository == ""
      then replace_from "{server_name}" found.server_name 0 c.oras.repository
      else found.artifact_repository
  fail_if (overlaps_site found.dir earlier) (other "overlapping targets")
  fail_if (has found.id seen) (other "duplicate target")
  ok (record found { artifact_repository = repository }, insert found.id tt seen)

unfoldable pub place : Outside → Config → List Target → Target → Seen → Fallible (Target × Seen)
unfolding place_site is_template
place o c earlier t seen = if is_template t then ok (t, seen) else place_site o c earlier t seen

-- The rest of the checks of a target.
unfoldable pub check_settings : Outside → Config → Target → Fallible Target
unfolding check_file_mode check_git validate_checks check_frontend check_required
check_settings o c t = do
  let mode = if t.file_mode == "" then "0644" else t.file_mode
  let is_frontend = t.type == release_type_frontend_static
  check_file_mode o mode
  if is_frontend then ok tt else check_git o c t
  checks ← validate_checks o true t.health_checks
  initial ← validate_checks o false t.initial_health_checks
  if is_frontend then check_frontend o c t else ok tt
  check_required t.required_files
  ok (record t { file_mode = mode; health_checks = checks; initial_health_checks = initial })

-- The body of the loop over the targets.
unfoldable pub check_target :
    Outside → Config → List Target → Seen → Target → Fallible (Target × Seen)
unfolding check_name check_type place check_settings
check_target o c earlier seen t = do
  named ← check_name t seen
  check_type o c t
  placed ← place o c earlier (record t { env = c.env }) named
  done ← check_settings o c placed.0
  ok (done, placed.1)

-- The loop over the targets, behind those that were checked.
unfoldable pub check_targets :
    Outside → Config → List Target → Seen → List Target → Fallible (List Target)
unfolding check_target
check_targets o c earlier seen [] = ok []
check_targets o c earlier seen (t ∷ ts) = do
  found ← check_target o c earlier seen t
  rest ← check_targets o c (earlier ++ (found.0 ∷ [])) found.1 ts
  ok (found.0 ∷ rest)

-- The name of the node.
unfoldable pub node_name : Outside → Config → String
node_name o c =
    if not (c.node_id == "")
    then c.node_id
    else if not (c.hostname == "")
    then c.hostname
    else o.hostname

-- The settings with their defaults, but for the lock and the directories.
unfoldable pub with_defaults : Config → Config
with_defaults c = record c {
  execution_timeout = or_default 300000000000 c.execution_timeout;
  step_timeout = or_default 60000000000 c.step_timeout;
  recovery_timeout = or_default 90000000000 c.recovery_timeout;
  cleanup_timeout = or_default 5000000000 c.cleanup_timeout;
  max_request_bytes = or_default 65536 c.max_request_bytes;
  max_concurrent_requests = or_default 64 c.max_concurrent_requests;
  max_archive_bytes = or_default 1073741824 c.max_archive_bytes;
  max_archive_files = or_default 100000 c.max_archive_files;
  min_free_bytes = if nat_eq c.min_free_bytes 0 then 67108864 else c.min_free_bytes;
  keep_releases = or_default 5 c.keep_releases;
}

-- The limits, which must be positive, and at least two releases that are kept.
unfoldable pub check_limits : Config → Fallible (Unit {0})
check_limits c = do
  fail_if
      (is_below 1 c.execution_timeout
        || is_below 1 c.step_timeout
        || is_below 1 c.recovery_timeout
        || is_below 1 c.cleanup_timeout)
      (other "timeouts must be positive")
  fail_if
      (is_below 1 c.max_request_bytes
        || is_below 1 c.max_concurrent_requests
        || is_below 1 c.max_archive_bytes
        || is_below 1 c.max_archive_files
        || is_below 2 c.keep_releases)
      (other "invalid resource limits")

-- The node, its environment and its directories.
unfoldable pub validate_node : Outside → Config → Fallible Config
unfolding node_name check_tokens single_env default_lock is_abs trim_space get_param
validate_node o c = do
  fail_if (not (c.node_id == "") && not (c.hostname == "") && not (c.node_id == c.hostname))
      (other "hostname and node_id disagree")
  let name = node_name o c
  fail_if (name == "") (other "cannot determine node hostname")
  fail_if (nat_eq (length c.release_auth_tokens) 0) (other "release_auth_tokens is required")
  check_tokens c.release_auth_tokens
  let env = single_env c.env c.release_auth_tokens
  let lock = if c.lock_file == "" then default_lock c.data_dir else c.lock_file
  let limit = or_default 1000 c.max_dynamic_targets
  fail_if (is_below 1 limit) (other "max_dynamic_targets must be positive")
  fail_if (ltb 128 (len name) || ltb 64 (len env)) (other "node_id/env too long")
  fail_if (not (env == "") && trim_space (get_param env c.release_auth_tokens) == "")
      (other "release_auth_tokens must include current env")
  fail_if (not (is_abs c.data_dir) || not (is_abs lock))
      (other "data_dir and shared lock_file must be absolute")
  data_dir ← o.canonical c.data_dir
  lock_file ← o.canonical lock
  fail_if (not (c.log_file == "") && not (is_abs c.log_file)) (other "log_file must be absolute")
  ok (record c {
    listen_addr = if c.listen_addr == "" then ":9166" else c.listen_addr;
    node_id = name;
    env = env;
    max_dynamic_targets = limit;
    data_dir = data_dir;
    lock_file = lock_file;
  })

-- A template without settings.
abbrev pub template_of : String → Target
template_of type = record {
  env = "";
  dynamic = false;
  artifact_repository = "";
  shared_assets = false;
  type = type;
  server_name = "";
  path_dest = "";
  project = "";
  required_files = [];
  health_checks = [];
  initial_health_checks = [];
  public_base_url = "";
  public_host = "";
  file_mode = "";
  id = "";
  dir = "";
}

-- The templates of a configuration that lists no targets.
unfoldable pub default_targets : Config → List Target
unfolding lookup
default_targets c =
    let frontend =
      if c.oras.repository == "" then [] else template_of release_type_frontend_static ∷ [] in
    let lists =
      if has release_type_whitelist c.repos
      then template_of release_type_whitelist ∷ frontend
      else frontend in
    if has release_type_config c.repos then template_of release_type_config ∷ lists else lists

-- The targets that are checked: those that are listed, or the templates.
unfoldable pub targets_of : Config → List Target
unfolding default_targets
targets_of c = if c.targets_given then c.targets else default_targets c

unfoldable pub validate_targets : Outside → Config → Fallible Config
unfolding targets_of check_targets
validate_targets o c = do
  fail_if (nat_eq (length (targets_of c)) 0)
      (other "targets or a configured release repository is required")
  checked ← check_targets o c [] [] (targets_of c)
  ok (record c { targets = checked })

-- `Validate` up to the addresses.
unfoldable pub validate : Outside → Config → Fallible Config
unfolding validate_node with_defaults check_limits validate_targets
validate o c₀ = do
  c ← validate_node o c₀
  check_limits (with_defaults c)
  validate_targets o (with_defaults c)
