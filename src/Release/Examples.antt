-- ===== src/Release/Examples.antt =====
-- A request of a configuration release, and what its validation in
-- internal/domain/release/validate.go gives.
use config_sync_nginx.Base.{String, [], ◌∷◌, ◌≡◌, refl, ok}
use config_sync_nginx.Base.Dict.{insert}
use config_sync_nginx.Base.Text.{trim_space, to_lower, contains_code}
use config_sync_nginx.Base.FilePath.{is_abs, clean}
use config_sync_nginx.Release.Identity.{
  get_param, is_id, is_commit, resolve_apply_source_repo, validate_repo_site_directory_name,
  server_identity,
}
use config_sync_nginx.Release.Types.{ApplyRequest}
use config_sync_nginx.Release.Validate.{normalize_request, validate_apply_request}
use config_sync_nginx.Release.Accepted.{IsAccepted, validate_apply_request-IsAccepted}

abbrev pub first_commit : String
first_commit = "0123456789abcdef0123456789abcdef01234567"

abbrev pub first_release : String
first_release = "11111111-2222-3333-4444-555555555555"

abbrev pub second_release : String
second_release = "66666666-7777-8888-9999-000000000000"

abbrev pub release_request : ApplyRequest
release_request = record {
  commit_alias = "";
  server_name = "example.org";
  server_name_alias = "";
  path_dest = "/srv/site";
  data_dir = "";
  artifact_digest = "";
  release_id = first_release;
  expected_state_revision = "";
  restore_of = "";
  app = "site";
  env = "prod";
  type = "config";
  source_repo = "";
  branch = "main";
  commit_id = first_commit;
  version = "";
  project = "site";
  params = [];
  operator = "";
  build_url = "";
}

-- The request as it is accepted.
abbrev accepted_request : ApplyRequest
accepted_request = record release_request {
  server_name = "";
  path_dest = "";
  source_repo = "config";
  params = ("path_dest", "/srv/site") ∷ ("server_name", "example.org") ∷ [];
}

passes : validate_apply_request second_release release_request ≡ ok accepted_request
unfolding validate_apply_request get_param insert is_id trim_space is_commit to_lower
    resolve_apply_source_repo validate_repo_site_directory_name server_identity is_abs contains_code
    clean
passes = refl

validate_apply_request-IsAccepted_example :
    (normal : ApplyRequest) × (normalize_request second_release release_request ≡ ok normal)
    × IsAccepted normal accepted_request
validate_apply_request-IsAccepted_example =
    validate_apply_request-IsAccepted second_release release_request accepted_request passes
