-- ===== src/Http/Keeps.antt =====
-- What the operations of a publisher keep, the server of internal/interfaces/httpapi/server.go keeps.
use config_sync_nginx.Base.{
  ℕ, String, not, ◌&&◌, ◌||◌, ◌==◌, ◌≡◌, ◌≢◌, arith, Option, none, some, Fallible, ok, err, if-rule,
  ltb,
}
use config_sync_nginx.Base.Text.{trim_space}
use config_sync_nginx.Release.Types.{
  ReleaseType, ApplyRequest, NginxCommandRequest, RollbackRequest, Result,
}
use config_sync_nginx.Release.Identity.{is_id, valid_target_id}
use config_sync_nginx.State.{Target}
use config_sync_nginx.Publisher.Targets.{accepts_env}
use config_sync_nginx.Http.Access.{Net, Request, effective_client_ip, client_ip_allowed}
use config_sync_nginx.Http.Types.{
  StateAnswer, reported, refused, Publisher, Route, apply_route, rollback_route, nginx_test_route,
  nginx_reload_route, abort_route, state_route, health_route, metrics_route, Payload, error_payload,
  release_payload, state_payload, health_payload, metrics_payload, mux_payload, Response, Library,
  ServerConfig,
}
use config_sync_nginx.Http.Server.{
  release_response, Reading, accepted, rejected, read_body, routes, is_authorized, authorize,
  answer, run_release, run_command, handle_apply, handle_rollback, handle_nginx_command,
  answer_state, is_foreign, state_response, answer_found, answer_resolved, error_response,
  state_of_id, state_of_tuple, query_state, state_in_env, handle_state, handle_route, serve_mux,
  serve,
}

-- Every operation of the publisher keeps `P`, and every result of a release satisfies `R`.
pub record Keeps {S : Type 0} (P : S → Type 0) (R : Result → Type 0) (runner : Publisher S)
    : Type 0 where
  pub stage :
      (req : ApplyRequest) (s : S) → P s → R (runner.stage req s).0 × P (runner.stage req s).1
  pub rollback_current :
      (req : RollbackRequest) (s : S)
      → P s
      → R (runner.rollback_current req s).0 × P (runner.rollback_current req s).1
  pub nginx_test :
      (req : NginxCommandRequest) (s : S)
      → P s
      → R (runner.nginx_test req s).0 × P (runner.nginx_test req s).1
  pub nginx_reload :
      (req : NginxCommandRequest) (s : S)
      → P s
      → R (runner.nginx_reload req s).0 × P (runner.nginx_reload req s).1
  pub abort :
      (req : NginxCommandRequest) (s : S)
      → P s
      → R (runner.abort req s).0 × P (runner.abort req s).1
  pub health : (s : S) → P s → P (runner.health s).1
  pub find_target : (id : String) (s : S) → P s → P (runner.find_target id s).1
  pub resolve :
      (type : ReleaseType) (site root project env : String) (s : S)
      → P s
      → P (runner.resolve type site root project env s).1
  pub state : (id release_id : String) (s : S) → P s → P (runner.state id release_id s).1

-- The code of a response is the HTTP status of its result, or 500 where that is not set.
abbrev pub HasCode : Result → ℕ → Type 0
HasCode result code =
    (result.http_status ≡ 0 → code ≡ 500) × (result.http_status ≢ 0 → code ≡ result.http_status)

release_response-HasCode : (result : Result) → HasCode result (release_response result).code
unfolding release_response
release_response-HasCode result = (λ unset. ground arith, λ set. ground arith)

-- A response with the result of a release: the result satisfies `R`, and its status is sent.
abbrev pub OnRelease : (Result → Type 0) → ℕ → Payload → Type 0
OnRelease R code (release_payload result) = R result × HasCode result code
OnRelease R code (error_payload key message) = Unit
OnRelease R code (state_payload report) = Unit
OnRelease R code (health_payload report) = Unit
OnRelease R code metrics_payload = Unit
OnRelease R code mux_payload = Unit

-- What is shown of a response and of the state behind it.
abbrev pub Good : {S : Type 0} → (S → Type 0) → (Result → Type 0) → Response × S → Type 0
Good P R out = OnRelease R (out.0).code (out.0).payload × P out.1

module _ {Ip Network S : Type 0} (net : Net Ip Network) (lib : Library) (runner : Publisher S)
    (cfg : ServerConfig Network) (P : S → Type 0) (R : Result → Type 0)
    (keeps : Keeps P R runner) where
  abbrev Fine : (S → Response × S) → Type 0
  Fine m = (s : S) → P s → Good P R (m s)

  authorize-Fine :
      (r : Request) (env : String) (rest : S → Response × S)
      → Fine rest
      → Fine (authorize net lib runner cfg r env rest)
  unfolding authorize
  authorize-Fine r env rest fine s p =
      if-rule (Good P R) (is_authorized net lib runner cfg r env) (fine s p) (tt, p)

  answer-Fine :
      (call : S → Result × S)
      → ((s : S) → P s → R (call s).0 × P (call s).1)
      → Fine (answer net lib runner cfg call)
  unfolding answer release_response
  answer-Fine call ends s p = (((ends s p).0, release_response-HasCode (call s).0), (ends s p).1)

  run_release-Fine :
      {A : Type 0} (r : Request) (env_of : A → String) (call : A → S → Result × S)
      (body : Reading A)
      → ((req : A) (s : S) → P s → R (call req s).0 × P (call req s).1)
      → Fine (run_release net lib runner cfg r env_of call body)
  unfolding run_release error_response
  run_release-Fine r env_of call (rejected code e) ends s p = (tt, p)
  run_release-Fine r env_of call (accepted req) ends s p =
      let env = trim_space (env_of req) in
      if-rule (Good P R) (env == "") (tt, p)
        (if-rule (Good P R) (not (accepts_env cfg.config env)) (tt, p)
          (authorize-Fine r env (answer net lib runner cfg (call req))
            (answer-Fine (call req) (ends req)) s p))

  run_command-Fine :
      (r : Request) (call : NginxCommandRequest → S → Result × S)
      (body : Reading NginxCommandRequest)
      → ((req : NginxCommandRequest) (s : S) → P s → R (call req s).0 × P (call req s).1)
      → Fine (run_command net lib runner cfg r call body)
  unfolding run_command error_response
  run_command-Fine r call (rejected code e) ends s p = (tt, p)
  run_command-Fine r call (accepted req) ends s p =
      let env = trim_space req.env in
      if-rule (Good P R) (env == "" || not (accepts_env cfg.config env)) (tt, p)
        (authorize-Fine r env (answer net lib runner cfg (call req))
          (answer-Fine (call req) (ends req)) s p)

  handle_nginx_command-Fine :
      (call : NginxCommandRequest → S → Result × S) (r : Request)
      → ((req : NginxCommandRequest) (s : S) → P s → R (call req s).0 × P (call req s).1)
      → Fine (handle_nginx_command net lib runner cfg call r)
  unfolding handle_nginx_command
  handle_nginx_command-Fine call r ends =
      let body = read_body (lib.decode_command cfg.max_request_bytes r.body) in
      authorize-Fine r "" (run_command net lib runner cfg r call body)
        (run_command-Fine r call body ends)

  state_response-OnRelease :
      (a : StateAnswer) → OnRelease R (state_response a).code (state_response a).payload
  unfolding state_response error_response
  state_response-OnRelease (refused code e) = tt
  state_response-OnRelease (reported report) = tt

  answer_state-Fine :
      (id release_id : String) → Fine (answer_state net lib runner cfg id release_id)
  unfolding answer_state
  answer_state-Fine id release_id s p =
      (state_response-OnRelease (runner.state id release_id s).0, keeps.state id release_id s p)

  answer_found-Fine :
      (r : Request) (id release_id : String) (found : Option Target)
      → Fine (answer_found net lib runner cfg r id release_id found)
  unfolding answer_found error_response
  answer_found-Fine r id release_id none s p = (tt, p)
  answer_found-Fine r id release_id (some t) s p =
      if-rule (Good P R) (is_foreign net lib runner cfg r t) (tt, p)
        (answer_state-Fine id release_id s p)

  answer_resolved-Fine :
      (release_id : String) (found : Fallible Target)
      → Fine (answer_resolved net lib runner cfg release_id found)
  unfolding answer_resolved error_response
  answer_resolved-Fine release_id (err e) s p = (tt, p)
  answer_resolved-Fine release_id (ok t) s p = answer_state-Fine t.id release_id s p

  query_state-Fine : (r : Request) → Fine (query_state net lib runner cfg r)
  unfolding query_state state_of_id state_of_tuple error_response
  query_state-Fine r s p =
      let id = r.query "target_id" in
      let release_id = r.query "release_id" in
      let found = runner.find_target id s in
      let named =
        runner.resolve (r.query "type") (r.query "server_name") (r.query "path_dest")
          (r.query "project") (r.query "env") s in
      if-rule (Good P R) (not (release_id == "") && not (is_id release_id)) (tt, p)
        (if-rule (Good P R) (not (id == ""))
          (if-rule (Good P R) (not (valid_target_id id)) (tt, p)
            (if-rule (Good P R)
              (not (r.query "type" == "")
                || not (r.query "server_name" == "")
                || not (r.query "path_dest" == ""))
              (tt, p)
              (answer_found-Fine r id release_id found.0 found.1 (keeps.find_target id s p))))
          (if-rule (Good P R)
            (r.query "type" == "" || r.query "server_name" == "" || r.query "path_dest" == "")
            (tt, p)
            (answer_resolved-Fine release_id named.0 named.1 (
              keeps.resolve (r.query "type") (r.query "server_name") (r.query "path_dest")
                (r.query "project") (r.query "env") s p))))

  state_in_env-Fine : (r : Request) → Fine (state_in_env net lib runner cfg r)
  unfolding state_in_env error_response
  state_in_env-Fine r s p =
      if-rule (Good P R) (not (accepts_env cfg.config (r.query "env"))) (tt, p)
        (authorize-Fine r (r.query "env") (query_state net lib runner cfg r) (query_state-Fine r) s
          p)

  handle_route-Fine : (route : Route) (r : Request) → Fine (handle_route net lib runner cfg route r)
  unfolding handle_route handle_apply handle_rollback handle_state
  handle_route-Fine apply_route r =
      let body = read_body (lib.decode_apply cfg.max_request_bytes r.body) in
      authorize-Fine r "" (run_release net lib runner cfg r (λ req. req.env) runner.stage body)
        (run_release-Fine r (λ req. req.env) runner.stage body keeps.stage)
  handle_route-Fine rollback_route r =
      let body = read_body (lib.decode_rollback cfg.max_request_bytes r.body) in
      authorize-Fine r ""
        (run_release net lib runner cfg r (λ req. req.env) runner.rollback_current body)
        (run_release-Fine r (λ req. req.env) runner.rollback_current body keeps.rollback_current)
  handle_route-Fine nginx_test_route r =
      handle_nginx_command-Fine runner.nginx_test r keeps.nginx_test
  handle_route-Fine nginx_reload_route r =
      handle_nginx_command-Fine runner.nginx_reload r keeps.nginx_reload
  handle_route-Fine abort_route r = handle_nginx_command-Fine runner.abort r keeps.abort
  handle_route-Fine state_route r =
      authorize-Fine r "" (state_in_env net lib runner cfg r) (state_in_env-Fine r)
  handle_route-Fine health_route r = λ s p. (tt, keeps.health s p)
  handle_route-Fine metrics_route r = λ s p. (tt, keeps.health s p)

  serve_mux-Fine : (r : Request) (o : Option Route) → Fine (serve_mux net lib runner cfg r o)
  unfolding serve_mux
  serve_mux-Fine r none s p = (tt, p)
  serve_mux-Fine r (some route) s p = handle_route-Fine route r s p

  -- What every operation of the publisher keeps, the server keeps; and a result that it sends is one
  -- of which `R` holds, sent with its own HTTP status.
  pub serve-Good :
      (in_flight : ℕ) (r : Request) (s : S)
      → P s
      → Good P R (serve net lib runner cfg in_flight r s)
  unfolding serve error_response
  serve-Good in_flight r s p =
      if-rule (Good P R)
        (not (client_ip_allowed net (effective_client_ip net cfg.access r) cfg.access)) (tt, p)
        (if-rule (Good P R) (not (ltb in_flight cfg.max_concurrent_requests)) (tt, p)
          (serve_mux-Fine r (lib.serve_mux routes r) s p))
