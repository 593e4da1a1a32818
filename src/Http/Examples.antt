-- ===== src/Http/Examples.antt =====
-- A server behind a proxy, over the node of the other examples, and what
-- internal/interfaces/httpapi/server.go gives there.
use config_sync_nginx.Base.{
  String, true, false, ◌==◌, ◌≡◌, ◌<◌, refl, List, [], ◌∷◌, none, some, ok, ◌⊎◌, if◌then◌else◌,
}
use config_sync_nginx.Base.Text.{trim_space, split_on, join_commas}
use config_sync_nginx.Publisher.Agreement.{Sound}
use config_sync_nginx.Publisher.Examples.{
  site_config, calm_node, site_world, next_request, back_request, command_request,
}
use config_sync_nginx.Http.Access.{
  Net, IpAccessParsed, Request, forwarded_for, forwarded, ip_in_any_net, behind_proxies,
  client_of_peer, client_of_parsed, client_of_host, effective_client_ip, host_only_from_remote_addr,
  walk_hops, client_ip_allowed,
}
use config_sync_nginx.Http.Spoof.{effective_client_ip-<>}
use config_sync_nginx.Http.Types.{Library, ServerConfig, apply_route, at_end, decoded}
use config_sync_nginx.Http.Server.{serve}
use config_sync_nginx.Http.Guarded.{HasToken, serve-HasToken}
use config_sync_nginx.Http.Runner.{runner, health}
use config_sync_nginx.Http.Answered.{IsSent, serve-IsAnswered}

-- Addresses are their texts, and a network has one address.
abbrev text_net : Net String String
text_net = record {
  parse_ip = λ s. if s == "" then none else some s;
  to4 = λ ip. some ip;
  parse_cidr = λ s. ok s;
  ip_net = λ ip ones bits. ip;
  contains = λ network ip. network == ip;
  split_host_port = λ s. ok s;
}

abbrev proxy_access : IpAccessParsed String
proxy_access = record { enabled = true; rules = "10.0.0.9" ∷ []; trusted = "10.0.0.1" ∷ [] }

abbrev header_of : String → String → List String
header_of hops name =
    if name == "X-Forwarded-For"
    then hops ∷ []
    else if name == "X-Release-Token"
    then "token" ∷ []
    else []

abbrev request_of : String → Request
request_of hops = record {
  method = "POST";
  path = "/api/v1/releases/apply";
  remote_addr = "10.0.0.1";
  header = header_of hops;
  query = λ name. "";
  body = "";
}

abbrev plain_library : Library
plain_library = record {
  serve_mux = λ patterns r. some apply_route;
  mux_code = λ r. 404;
  decode_apply = λ limit body. (decoded next_request, at_end);
  decode_rollback = λ limit body. (decoded back_request, at_end);
  decode_command = λ limit body. (decoded command_request, at_end);
}

abbrev plain_config : ServerConfig String
plain_config = record {
  config = site_config;
  access = proxy_access;
  max_request_bytes = 65536;
  max_concurrent_requests = 8;
}

effective_client_ip-<>_example :
    effective_client_ip text_net proxy_access (request_of "10.0.0.8,10.0.0.9") ≡ some "10.0.0.9"
unfolding effective_client_ip client_of_host client_of_parsed client_of_peer behind_proxies
    forwarded forwarded_for ip_in_any_net host_only_from_remote_addr walk_hops trim_space split_on
    join_commas
effective_client_ip-<>_example =
    effective_client_ip-<> text_net proxy_access (request_of "10.0.0.9")
      (request_of "10.0.0.8,10.0.0.9") "10.0.0.8" "10.0.0.9" refl refl refl refl refl

serve-HasToken_example :
    ((serve text_net plain_library
        (runner calm_node)
        plain_config
        0
        (request_of "10.0.0.9")
        site_world).1
      ≡ site_world)
    ⊎ ((client_ip_allowed text_net
            (effective_client_ip text_net proxy_access (request_of "10.0.0.9"))
            proxy_access
          ≡ true)
        × (0 < 8)
        × ((env : String) × HasToken plain_config (request_of "10.0.0.9") env))
unfolding runner health
serve-HasToken_example =
    serve-HasToken text_net plain_library (runner calm_node) plain_config 0 (request_of "10.0.0.9")
      site_world (λ t. refl)

serve-IsAnswered_example :
    let (response, w) =
      serve text_net plain_library
        (runner calm_node)
        plain_config
        0
        (request_of "10.0.0.9")
        site_world in
    IsSent response.code response.payload × Sound false false w
serve-IsAnswered_example =
    serve-IsAnswered text_net plain_library plain_config calm_node 0 (request_of "10.0.0.9")
      site_world (refl, refl, ((refl, tt), tt), ((refl, tt), tt))
