-- ===== src/Release/Validate.antt =====
-- internal/domain/release/validate.go: the checks of the three requests. A request that the Go
-- code changes through its pointer is returned; the error leaves no request behind.
use config_sync_nginx.Base.{
  String, ◌&&◌, ◌||◌, not, [], ◌∷◌, Fallible, ok, err, invalid_request, ltb, len, ◌==◌, ◌<>◌, ◌>>=◌,
  ◌>>◌, fail_if, if◌then◌else◌,
}
use config_sync_nginx.Base.Dict.{Dict, insert}
use config_sync_nginx.Base.Text.{codes, trim_space, to_lower, contains_code}
use config_sync_nginx.Base.FilePath.{clean, is_abs}
use config_sync_nginx.Release.Types.{
  ApplyRequest, NginxCommandRequest, RollbackRequest, release_type_frontend_static,
}
use config_sync_nginx.Release.Identity.{
  is_id, is_commit, is_artifact_digest, is_release_type, validate_repo_site_directory_name,
  get_param, server_identity, resolve_apply_source_repo,
}

-- The request with its blanks trimmed, which also the caller of a refused request sees.
unfoldable pub trim_command_request : NginxCommandRequest → NginxCommandRequest
unfolding trim_space
trim_command_request r = record { release_id = trim_space r.release_id; env = trim_space r.env }

-- `ValidateNginxCommandRequest`.
unfoldable pub validate_nginx_command_request : NginxCommandRequest → Fallible NginxCommandRequest
unfolding trim_command_request is_id
validate_nginx_command_request r = do
  let t = trim_command_request r
  fail_if (not (is_id t.release_id)) (invalid_request "release_id" "须为 UUID")
  fail_if (t.env == "" || ltb 64 (len t.env)) (invalid_request "env" "不能为空或超长")
  ok t

-- The loop over the keys of `params`.
unfoldable pub check_param_keys : Dict String → Fallible (Unit {0})
check_param_keys [] = ok tt
check_param_keys ((k, v) ∷ ps) =
    if not (k == "path_dest") && not (k == "server_name")
    then err (invalid_request "params" ("不支持字段 " <> k))
    else check_param_keys ps

-- The end that the checks of apply and of rollback share: the site, the path and the keys, and the
-- map with the two values in their normal form.
unfoldable pub validate_params : Dict String → Fallible (Dict String)
unfolding check_param_keys
validate_params params = do
  validate_repo_site_directory_name (server_identity params)
  let raw = trim_space (get_param "path_dest" params)
  fail_if (not (is_abs raw) || ltb 4096 (len raw) || contains_code 0 (codes raw))
      (invalid_request "params.path_dest" "须为有效绝对路径")
  check_param_keys params
  ok (("path_dest", clean raw) ∷ ("server_name", server_identity params) ∷ [])

-- The request with its blanks trimmed, which also the caller of a refused request sees.
unfoldable pub trim_rollback_request : RollbackRequest → RollbackRequest
unfolding trim_space
trim_rollback_request r = record r { env = trim_space r.env; project = trim_space r.project }

-- `ValidateRollbackRequest`.
unfoldable pub validate_rollback_request : RollbackRequest → Fallible RollbackRequest
unfolding trim_rollback_request validate_params
validate_rollback_request r = do
  let t = trim_rollback_request r
  fail_if (t.env == "" || ltb 64 (len t.env) || ltb 128 (len t.project))
      (invalid_request "env/project" "不能为空或超长")
  fail_if (not (is_release_type t.type)) (invalid_request "type" "不支持的发布类型")
  params ← validate_params t.params
  ok (record t { params = params })

-- The closure `merge`: the value that `*dest` has afterwards.
unfoldable pub merge : String → String → String → Fallible String
merge dest alias name =
    if not (alias == "") && not (dest == "") && not (alias == dest)
    then err (invalid_request name "重复字段值不一致")
    else ok (if dest == "" then alias else dest)

-- One round of the loop that moves a top level field into `params`.
unfoldable pub merge_param : String → String → Dict String → Fallible (Dict String)
unfolding merge
merge_param key value params = do
  merged ← merge (get_param key params) value key
  ok (insert key merged params)

-- The texts of a request with their aliases merged and their blanks trimmed.
unfoldable pub normalize_request : String → ApplyRequest → Fallible ApplyRequest
unfolding merge_param
normalize_request fresh r = do
  commit ← merge r.commit_id r.commit_alias "commit_id/commitid"
  params₁ ← merge_param "server_name" r.server_name r.params
  params₂ ← merge_param "server_name" r.server_name_alias params₁
  params₃ ← merge_param "path_dest" r.path_dest params₂
  ok (record r {
    commit_alias = "";
    server_name = "";
    server_name_alias = "";
    path_dest = "";
    release_id = if r.release_id == "" then fresh else r.release_id;
    env = trim_space r.env;
    branch = trim_space r.branch;
    project = trim_space r.project;
    commit_id = to_lower (trim_space commit);
    version = trim_space r.version;
    artifact_digest = trim_space r.artifact_digest;
    params = params₃;
  })

-- The checks of identities, lengths and digests, in the order of the source.
unfoldable pub check_request : ApplyRequest → Fallible (Unit {0})
check_request r = do
  fail_if
      (not (is_id r.release_id)
        || (not (r.expected_state_revision == "") && not (is_id r.expected_state_revision)))
      (invalid_request "release_id/expected_state_revision" "须为 UUID，要求 HTTP 发布协议 2")
  fail_if
      (not (r.restore_of == "") && (not (is_id r.restore_of) || r.expected_state_revision == ""))
      (invalid_request "restore_of" "须为 UUID")
  fail_if (r.env == "" || ltb 64 (len r.env) || ltb 255 (len r.branch))
      (invalid_request "env/branch" "不能为空或超长")
  fail_if
      (r.type == release_type_frontend_static
        && not (r.artifact_digest == "")
        && not (is_artifact_digest r.artifact_digest))
      (invalid_request "artifact_digest" "前端须指定 sha256 OCI manifest digest")
  fail_if (not (r.type == release_type_frontend_static) && not (r.artifact_digest == ""))
      (invalid_request "artifact_digest" "仅用于 frontend_static")
  fail_if (not (is_commit r.commit_id)) (invalid_request "commit_id" "须为完整的 40 或 64 位十六进制提交 ID")
  fail_if
      (ltb 128 (len r.project)
        || ltb 256 (len r.version)
        || ltb 256 (len r.operator)
        || ltb 2048 (len r.build_url)
        || ltb 128 (len r.app))
      (invalid_request "metadata" "字段过长")

-- `ValidateApplyRequest` behind the trimming.
unfoldable pub validate_normalized : ApplyRequest → Fallible ApplyRequest
unfolding check_request validate_params
validate_normalized r₁ = do
  check_request r₁
  r₂ ← resolve_apply_source_repo r₁
  params ← validate_params r₂.params
  ok (record r₂ { params = params })

-- `ValidateApplyRequest`, where `fresh` is the UUID that `ID()` draws for an absent `release_id`.
unfoldable pub validate_apply_request : String → ApplyRequest → Fallible ApplyRequest
unfolding normalize_request validate_normalized
validate_apply_request fresh r = normalize_request fresh r >>= validate_normalized
