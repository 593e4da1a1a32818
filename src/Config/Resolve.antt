-- ===== src/Config/Resolve.antt =====
-- `TargetForEnv`, `resolvePaths` and `ValidateArtifactRepository` of internal/config/load.go.
use Prim.Native.Char.{code}
use config_sync_nginx.Base.{
  ℕ, zero, suc, String, Bool, true, false, not, ◌&&◌, ◌||◌, ◌==◌, ◌<>◌, ◌-◌, List, [], ◌∷◌, Option,
  none, some, error_text, other, Fallible, ok, err, ◌>>=◌, ◌>>◌, fail_if, any, if◌then◌else◌,
  nat_eq, len, find,
}
use config_sync_nginx.Base.Text.{codes, contains_code, has_prefix, trim_space}
use config_sync_nginx.Base.FilePath.{split_path, join, within}
use config_sync_nginx.Release.Types.{ReleaseType, release_type_frontend_static}
use config_sync_nginx.Release.Identity.{validate_repo_site_directory_name, get_param}
use config_sync_nginx.State.{Target, is_template}
use config_sync_nginx.Config.Types.{Config, Url, Outside}

-- Whether one of the characters stands in the text.
abbrev pub contains_any : List ℕ → String → Bool
contains_any cs s = any (λ c. contains_code c (codes s)) cs

-- `strings.Contains`.
unfoldable pub contains_text : String → String → Bool
unfolding has_prefix
contains_text String.[] part = part == ""
contains_text (String.◌∷◌ c s) part =
    let later = contains_text s part in has_prefix (String.◌∷◌ c s) part || later

unfoldable pub ends_with_slash : String → Bool
ends_with_slash String.[] = false
ends_with_slash (String.◌∷◌ c String.[]) = nat_eq (code c) b'/'
ends_with_slash (String.◌∷◌ c (String.◌∷◌ d s)) = ends_with_slash (String.◌∷◌ d s)

-- `strings.TrimPrefix(p, "/")`.
unfoldable pub trim_slash : String → String
trim_slash String.[] = String.[]
trim_slash (String.◌∷◌ c s) = if nat_eq (code c) b'/' then s else String.◌∷◌ c s

-- `strings.ReplaceAll`; `skip` counts the characters of a match that are still to be left out.
unfoldable pub replace_from : String → String → ℕ → String → String
unfolding has_prefix
replace_from old new skip String.[] = String.[]
replace_from old new (suc skip) (String.◌∷◌ c s) = replace_from old new skip s
replace_from old new zero (String.◌∷◌ c s) = elim (has_prefix (String.◌∷◌ c s) old) [
  | true ↦ new <> replace_from old new (len old - 1) s
  | false ↦ String.◌∷◌ c (replace_from old new zero s)
]

abbrev pub replace_all : String → String → String → String
replace_all s old new = replace_from old new 0 s

-- `ValidateRepoSiteDirectoryName` of every part of a path.
unfoldable pub check_parts : List String → Fallible (Unit {0})
unfolding validate_repo_site_directory_name
check_parts [] = ok tt
check_parts (part ∷ parts) = elim (validate_repo_site_directory_name part) [
  | err e ↦ err (other ("invalid artifact_repository path: " <> error_text e))
  | ok u ↦ check_parts parts
]

-- `Config.AcceptsEnv`.
unfoldable pub accepts_env : Config → String → Bool
unfolding trim_space get_param
accepts_env c env =
    not (env == "")
    && not (trim_space (get_param env c.release_auth_tokens) == "")
    && (c.env == "" || c.env == env)

-- Whether two directories overlap.
abbrev pub overlap : String → String → Bool
overlap a b = within a b || within b a

-- Whether a directory overlaps that of a configured site.
unfoldable pub overlaps_site : String → List Target → Bool
unfolding within
overlaps_site dir targets = any (λ t. not (is_template t) && overlap dir t.dir) targets

-- A configured target, for a project.
unfoldable pub authorize_project : Target → String → Fallible Target
authorize_project t project =
    if not (t.project == "") && not (project == "") && not (project == t.project)
    then err (other "project not authorized")
    else ok t

-- Whether a target is the configured one of a site.
unfoldable pub is_site : ReleaseType → String → String → Target → Bool
unfolding is_template
is_site typ site real t =
    not (is_template t) && t.type == typ && t.server_name == site && t.path_dest == real

module _ (o : Outside) where
  -- The URL of a repository without scheme, as it is checked.
  unfoldable pub is_bad_repository : Url → Bool
  unfolding ends_with_slash
  is_bad_repository u =
      u.has_user
      || u.hostname == ""
      || u.path == ""
      || contains_code b':' (codes u.path)
      || ends_with_slash u.path

  -- `ValidateArtifactRepository`.
  unfoldable pub validate_artifact_repository : String → Fallible (Unit {0})
  unfolding contains_text check_parts trim_slash split_path is_bad_repository
  validate_artifact_repository value = do
    fail_if
        (contains_any (b'@' ∷ b'?' ∷ b'#' ∷ 92 ∷ 32 ∷ 9 ∷ 13 ∷ 10 ∷ []) value
          || contains_text value "://"
          || not (value == o.to_lower value))
        (other "invalid artifact_repository")
    elim (o.parse_url ("https://" <> value)) [
      | err e ↦
          err (other "artifact_repository must be registry/project/app-dist without tag or digest")
      | ok u ↦ do
        fail_if (is_bad_repository u)
            (other "artifact_repository must be registry/project/app-dist without tag or digest")
        check_parts (split_path (trim_slash u.path))
    ]

  -- The directory of a target.
  unfoldable pub dir_of : Target → String → String
  unfolding join
  dir_of t path_dest =
      if t.type == release_type_frontend_static
      then join path_dest t.server_name
      else join (join path_dest t.type) t.server_name

  -- Whether a directory overlaps the state of the service or its lock.
  unfoldable pub overlaps_service : Config → String → Bool
  unfolding within
  overlaps_service c dir = within dir c.lock_file || within c.data_dir dir || within dir c.data_dir

  -- `resolvePaths`.
  unfoldable pub resolve_paths : Config → Target → String → Fallible Target
  unfolding dir_of overlaps_service
  resolve_paths c t env = do
    path_dest ← o.canonical t.path_dest
    fail_if (path_dest == "/") (other "path_dest may not be filesystem root")
    let dir = dir_of t path_dest
    fail_if (overlaps_service c dir) (other "deployment directory overlaps service state or lock")
    ok (record t { path_dest = path_dest; dir = dir; env = env; id = o.digest env dir })

  -- The repository of a target of its own, or that of the node.
  unfoldable pub repository_of : Config → Target → String → String
  unfolding replace_from
  repository_of c t site =
      replace_all (if t.artifact_repository == "" then c.oras.repository else t.artifact_repository)
        "{server_name}" site

  -- A template with the names of a site.
  unfoldable pub fill_template : Config → Target → String → String → String → Target
  unfolding repository_of
  fill_template c t site real project = record t {
    server_name = site;
    path_dest = real;
    project = project;
    dynamic = true;
    artifact_repository =
        if t.type == release_type_frontend_static
        then repository_of c t site
        else t.artifact_repository;
  }

  -- A template as the target of a site.
  unfoldable pub instantiate : Config → Target → String → String → String → String → Fallible Target
  unfolding validate_artifact_repository resolve_paths fill_template overlaps_site
  instantiate c t site real project env = do
    let filled = fill_template c t site real project
    if t.type == release_type_frontend_static
        then validate_artifact_repository filled.artifact_repository
        else ok tt
    found ← resolve_paths c filled env
    fail_if (overlaps_site found.dir c.targets) (other "overlaps configured site")
    ok found

  -- What the two loops give: a site of the configuration, or else the template of the type.
  unfoldable pub choose_target :
      Config → String → String → String → String → Option Target → Option Target → Fallible Target
  unfolding instantiate authorize_project
  choose_target c site real project env (some t) template = authorize_project t project
  choose_target c site real project env none (some t) = instantiate c t site real project env
  choose_target c site real project env none none = err (other "release type or target not enabled")

  -- `TargetForEnv`.
  unfoldable pub target_for_env :
      Config → ReleaseType → String → String → String → String → Fallible Target
  unfolding accepts_env validate_repo_site_directory_name is_site is_template choose_target
  target_for_env c typ site root project env = do
    fail_if (not (accepts_env c env)) (other "environment not enabled")
    validate_repo_site_directory_name site
    real ← o.canonical root
    choose_target c site real project env (find (is_site typ site real) c.targets)
        (find (λ t. is_template t && t.type == typ) c.targets)
