-- ===== src/Http/Server.antt =====
-- internal/interfaces/httpapi/server.go. The logging of a request is left out.
use config_sync_nginx.Base.{
  ℕ, String, Bool, not, ◌&&◌, ◌||◌, ◌==◌, [], ◌∷◌, Option, none, some, error_text, Fallible, ok,
  err, any, if◌then◌else◌, nat_eq, ltb,
}
use config_sync_nginx.Base.Dict.{Dict}
use config_sync_nginx.Base.Text.{trim_space}
use config_sync_nginx.Release.Types.{NginxCommandRequest, Result}
use config_sync_nginx.Release.Identity.{is_id, valid_target_id}
use config_sync_nginx.State.{Target}
use config_sync_nginx.Publisher.Targets.{accepts_env}
use config_sync_nginx.Http.Access.{Net, Request, get_header, effective_client_ip, client_ip_allowed}
use config_sync_nginx.Http.Types.{
  StateAnswer, reported, refused, Publisher, Route, apply_route, rollback_route, nginx_test_route,
  nginx_reload_route, abort_route, state_route, health_route, metrics_route, error_payload,
  release_payload, state_payload, health_payload, metrics_payload, mux_payload, Response, Decoding,
  decoded, too_large, malformed, Rest, at_end, another_value, rest_too_large, rest_malformed,
  Library, ServerConfig,
}

-- `writeError`.
unfoldable pub error_response : ℕ → String → String → Response
error_response code key message = record { code = code; payload = error_payload key message }

-- `writeReleaseResult`.
unfoldable pub release_response : Result → Response
release_response result = record {
  code = if nat_eq result.http_status 0 then 500 else result.http_status;
  payload = release_payload result;
}

-- The answer to a query of the state.
unfoldable pub state_response : StateAnswer → Response
unfolding error_response error_text
state_response (refused code e) = error_response code "STATE_QUERY_FAILED" (error_text e)
state_response (reported report) = record { code = 200; payload = state_payload report }

-- A body that was read: its value, or the status and the text of the error.
pub data Reading (A : Type 0) : Type 0 where
  accepted : A → Reading A
  rejected : ℕ → String → Reading A

-- Both calls of `Decode`: nothing may stand behind the value.
unfoldable pub read_body : {A : Type 0} → Decoding A × Rest → Reading A
read_body (too_large e, rest) = rejected 413 e
read_body (malformed e, rest) = rejected 400 e
read_body (decoded a, at_end) = accepted a
read_body (decoded a, another_value) = rejected 400 "only one JSON object is allowed"
read_body (decoded a, rest_too_large e) = rejected 413 e
read_body (decoded a, rest_malformed e) = rejected 400 e

-- The routes of `New`.
unfoldable pub routes : Dict Route
routes =
    ("POST /api/v1/releases/apply", apply_route)
    ∷ ("POST /api/v1/releases/rollback", rollback_route)
    ∷ ("POST /api/v1/releases/nginx/test", nginx_test_route)
    ∷ ("POST /api/v1/releases/nginx/reload", nginx_reload_route)
    ∷ ("POST /api/v1/releases/abort", abort_route)
    ∷ ("GET /api/v1/releases/state", state_route)
    ∷ ("GET /healthz", health_route)
    ∷ ("GET /metrics", metrics_route)
    ∷ []

module _ {Ip Network S : Type 0} (net : Net Ip Network) (lib : Library) (runner : Publisher S)
    (cfg : ServerConfig Network) where
  -- Whether the token of a request is that of an environment, of any one where `env` is empty.
  unfoldable pub matches_token : String → String → String × String → Bool
  unfolding accepts_env trim_space
  matches_token token env entry =
      accepts_env cfg.config entry.0 && (env == "" || env == entry.0) && token == trim_space entry.1

  unfoldable pub is_authorized : Request → String → Bool
  unfolding matches_token
  is_authorized r env =
      let token = get_header "X-Release-Token" r in
      not (token == "") && any (matches_token token env) cfg.config.release_auth_tokens

  -- `authorize` around what follows it.
  unfoldable pub authorize : Request → String → (S → Response × S) → S → Response × S
  unfolding is_authorized error_response
  authorize r env rest s =
      if is_authorized r env
      then rest s
      else (error_response 401 "UNAUTHORIZED" "invalid release token", s)

  -- `writeReleaseResult` of a call of the publisher.
  unfoldable pub answer : (S → Result × S) → S → Response × S
  unfolding release_response
  answer call s = let done = call s in (release_response done.0, done.1)

  -- What `apply` and `rollback` do behind the first `authorize`.
  unfoldable pub run_release :
      {A : Type 0} → Request → (A → String) → (A → S → Result × S) → Reading A → S → Response × S
  unfolding authorize answer trim_space accepts_env error_response
  run_release r env_of call (rejected code e) s = (error_response code "INVALID_JSON" e, s)
  run_release r env_of call (accepted req) s =
      let env = trim_space (env_of req) in
      if env == ""
      then (error_response 400 "INVALID_REQUEST" "env is required", s)
      else if not (accepts_env cfg.config env)
      then (error_response 403 "ENV_NOT_ALLOWED" "environment not enabled", s)
      else authorize r env (answer (call req)) s

  -- `apply`.
  unfoldable pub handle_apply : Request → S → Response × S
  unfolding authorize run_release read_body
  handle_apply r = authorize r "" (
      run_release r (λ req. req.env) runner.stage
        (read_body (lib.decode_apply cfg.max_request_bytes r.body)))

  -- `rollback`.
  unfoldable pub handle_rollback : Request → S → Response × S
  unfolding authorize run_release read_body
  handle_rollback r = authorize r "" (
      run_release r (λ req. req.env) runner.rollback_current
        (read_body (lib.decode_rollback cfg.max_request_bytes r.body)))

  -- What `nginxCommand` does behind the first `authorize`.
  unfoldable pub run_command :
      Request
      → (NginxCommandRequest → S → Result × S)
      → Reading NginxCommandRequest
      → S
      → Response × S
  unfolding authorize answer trim_space accepts_env error_response
  run_command r call (rejected code e) s = (error_response 400 "INVALID_JSON" e, s)
  run_command r call (accepted req) s =
      let env = trim_space req.env in
      if env == "" || not (accepts_env cfg.config env)
      then (error_response 403 "ENV_NOT_ALLOWED" "environment does not match this node", s)
      else authorize r env (answer (call req)) s

  -- `nginxCommand`.
  unfoldable pub handle_nginx_command :
      (NginxCommandRequest → S → Result × S) → Request → S → Response × S
  unfolding authorize run_command read_body
  handle_nginx_command call r =
      authorize r ""
        (run_command r call (read_body (lib.decode_command cfg.max_request_bytes r.body)))

  -- The answer of `state` for a target that was found.
  unfoldable pub answer_state : String → String → S → Response × S
  unfolding state_response
  answer_state id release_id s =
      let done = runner.state id release_id s in (state_response done.0, done.1)

  -- Whether a target is of another environment or project than the request names.
  unfoldable pub is_foreign : Request → Target → Bool
  is_foreign r t =
      not (t.env == r.query "env")
      || (not (t.project == "")
          && not (r.query "project" == "")
          && not (r.query "project" == t.project))

  -- The target that is named by its identity.
  unfoldable pub answer_found : Request → String → String → Option Target → S → Response × S
  unfolding answer_state is_foreign error_response
  answer_found r id release_id none s =
      (error_response 403 "TARGET_NOT_ALLOWED" "target not authorized", s)
  answer_found r id release_id (some t) s =
      if is_foreign r t
      then (error_response 403 "TARGET_NOT_ALLOWED" "target not authorized", s)
      else answer_state id release_id s

  unfoldable pub state_of_id : Request → String → String → S → Response × S
  unfolding answer_found valid_target_id error_response
  state_of_id r id release_id s =
      let found = runner.find_target id s in
      if not (valid_target_id id)
      then (error_response 400 "INVALID_REQUEST" "invalid target_id", s)
      else if not (r.query "type" == "")
          || not (r.query "server_name" == "")
          || not (r.query "path_dest" == "")
      then (error_response 400 "INVALID_REQUEST" "use target_id or the full target tuple", s)
      else answer_found r id release_id found.0 found.1

  -- The target that is named by its type, site and root.
  unfoldable pub answer_resolved : String → Fallible Target → S → Response × S
  unfolding answer_state error_response error_text
  answer_resolved release_id (err e) s = (error_response 403 "TARGET_NOT_ALLOWED" (error_text e), s)
  answer_resolved release_id (ok t) s = answer_state t.id release_id s

  unfoldable pub state_of_tuple : Request → String → S → Response × S
  unfolding answer_resolved error_response
  state_of_tuple r release_id s =
      let found =
        runner.resolve (r.query "type") (r.query "server_name") (r.query "path_dest")
          (r.query "project") (r.query "env") s in
      if r.query "type" == "" || r.query "server_name" == "" || r.query "path_dest" == ""
      then (error_response 400 "INVALID_REQUEST" "type, server_name and path_dest required", s)
      else answer_resolved release_id found.0 found.1

  -- `state` behind both calls of `authorize`.
  unfoldable pub query_state : Request → S → Response × S
  unfolding state_of_id state_of_tuple is_id error_response
  query_state r s =
      let id = r.query "target_id" in
      let release_id = r.query "release_id" in
      if not (release_id == "") && not (is_id release_id)
      then (error_response 400 "INVALID_REQUEST" "release_id must be UUID", s)
      else if not (id == "")
      then state_of_id r id release_id s
      else state_of_tuple r release_id s

  -- `state` behind the first call of `authorize`.
  unfoldable pub state_in_env : Request → S → Response × S
  unfolding query_state authorize accepts_env error_response
  state_in_env r s =
      if not (accepts_env cfg.config (r.query "env"))
      then (error_response 403 "ENV_NOT_ALLOWED" "environment does not match this node", s)
      else authorize r (r.query "env") (query_state r) s

  -- `state`.
  unfoldable pub handle_state : Request → S → Response × S
  unfolding authorize state_in_env
  handle_state r = authorize r "" (state_in_env r)

  -- The functions that `New` registers.
  unfoldable pub handle_route : Route → Request → S → Response × S
  unfolding handle_apply handle_rollback handle_nginx_command handle_state
  handle_route apply_route r s = handle_apply r s
  handle_route rollback_route r s = handle_rollback r s
  handle_route nginx_test_route r s = handle_nginx_command runner.nginx_test r s
  handle_route nginx_reload_route r s = handle_nginx_command runner.nginx_reload r s
  handle_route abort_route r s = handle_nginx_command runner.abort r s
  handle_route state_route r s = handle_state r s
  handle_route health_route r s =
      let h = runner.health s in (record { code = 200; payload = health_payload h.0 }, h.1)
  handle_route metrics_route r s =
      let h = runner.health s in (record { code = 200; payload = metrics_payload }, h.1)

  -- `s.mux.ServeHTTP`.
  unfoldable pub serve_mux : Request → Option Route → S → Response × S
  unfolding handle_route
  serve_mux r none s = (record { code = lib.mux_code r; payload = mux_payload }, s)
  serve_mux r (some route) s = handle_route route r s

  -- `Handler`, with the number of the requests that hold a slot.
  unfoldable pub serve : ℕ → Request → S → Response × S
  unfolding serve_mux routes effective_client_ip client_ip_allowed error_response
  serve in_flight r s =
      if not (client_ip_allowed net (effective_client_ip net cfg.access r) cfg.access)
      then (error_response 403 "IP_NOT_ALLOWED" "client IP not allowed", s)
      else if not (ltb in_flight cfg.max_concurrent_requests)
      then (error_response 503 "REQUEST_LIMIT" "too many HTTP requests", s)
      else serve_mux r (lib.serve_mux routes r) s
