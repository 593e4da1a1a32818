-- ===== src/Config/Examples.antt =====
-- A configuration with a site and a template, and what internal/config/load.go gives there.
use config_sync_nginx.Base.{true, false, refl, [], ◌∷◌, ok, err, All}
use config_sync_nginx.Base.Int.{pos}
use config_sync_nginx.State.{Target}
use config_sync_nginx.Config.Types.{Config, Repo, Outside}
use config_sync_nginx.Config.Resolve.{target_for_env}
use config_sync_nginx.Config.Validate.{template_of, validate}
use config_sync_nginx.Config.Apart.{AreApart, IsOutside, validate-AreApart}
use config_sync_nginx.Config.Resolved.{IsResolved, target_for_env-IsResolved}

-- A system without symbolic links, on which every URL is one of a Git server.
abbrev plain_outside : Outside
plain_outside = record {
  canonical = λ path. ok path;
  parse_url = λ text. ok (record {
    scheme = "https";
    host = "git.example.org";
    hostname = "git.example.org";
    path = "/config";
    raw_query = "";
    fragment = "";
    has_user = false;
  });
  hostname = "node-1";
  to_lower = λ text. text;
  parse_octal = λ text. ok 420;
  digest = λ env dir. dir;
}

abbrev git_repo : Repo
git_repo = record {
  url = "https://git.example.org/config";
  gitlab_token = "token";
  allow_local = false;
}

abbrev listed_site : Target
listed_site = record (template_of "config") { server_name = "example.org"; path_dest = "/srv/a" }

abbrev plain_config : Config
plain_config = record {
  hostname = "";
  max_dynamic_targets = pos 0;
  oras = record { repository = ""; binary = ""; registry_config = ""; ca_file = "" };
  listen_addr = "";
  node_id = "";
  env = "";
  data_dir = "/data";
  lock_file = "";
  log_file = "";
  release_auth_tokens = ("prod", "token") ∷ [];
  repos = ("config", git_repo) ∷ [];
  targets_given = true;
  targets = listed_site ∷ template_of "config" ∷ [];
  execution_timeout = pos 0;
  step_timeout = pos 0;
  recovery_timeout = pos 0;
  cleanup_timeout = pos 0;
  max_request_bytes = pos 0;
  max_concurrent_requests = pos 0;
  max_archive_bytes = pos 0;
  max_archive_files = pos 0;
  min_free_bytes = 0;
  keep_releases = pos 0;
  asset_retention = pos 0;
}

-- The configuration as it is accepted.
abbrev ready_config : Config
ready_config = elim (validate plain_outside plain_config) [ ok c ↦ c | err e ↦ plain_config ]

validate-AreApart_example :
    AreApart ready_config.targets × All (IsOutside plain_outside ready_config) ready_config.targets
unfolding validate
validate-AreApart_example = validate-AreApart plain_outside plain_config ready_config refl

-- A second site, made from the template.
abbrev second_site : Target
second_site =
    elim (target_for_env plain_outside ready_config "config" "second.org" "/srv/b" "site" "prod") [
      | ok t ↦ t
      | err e ↦ listed_site
    ]

target_for_env-IsResolved_example : IsResolved plain_outside ready_config "prod" second_site
unfolding validate target_for_env
target_for_env-IsResolved_example =
    target_for_env-IsResolved plain_outside plain_config ready_config "config" "second.org" "/srv/b"
      "site" "prod" second_site refl refl
