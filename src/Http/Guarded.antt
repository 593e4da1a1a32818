-- ===== src/Http/Guarded.antt =====
-- What the server of internal/interfaces/httpapi/server.go lets through to the publisher.
use config_sync_nginx.Base.{
  ℕ, String, true, ◌≡◌, ◌≢◌, ◌<◌, refl, [], ◌∷◌, Option, none, some, ◌⊎◌, inl, inr, arith, eq_iff,
  Bool-cases, any, ltb,
}
use config_sync_nginx.Base.Dict.{Dict}
use config_sync_nginx.Base.Text.{trim_space}
use config_sync_nginx.Release.Types.{NginxCommandRequest, Result}
use config_sync_nginx.Publisher.Targets.{accepts_env}
use config_sync_nginx.Http.Access.{Net, Request, get_header, effective_client_ip, client_ip_allowed}
use config_sync_nginx.Http.Types.{
  Publisher, Route, apply_route, rollback_route, nginx_test_route, nginx_reload_route, abort_route,
  state_route, health_route, metrics_route, Response, Library, ServerConfig,
}
use config_sync_nginx.Http.Server.{
  read_body, routes, matches_token, is_authorized, authorize, run_release, run_command,
  handle_apply, handle_rollback, handle_nginx_command, handle_state, state_in_env, handle_route,
  serve_mux, serve,
}

-- The entry stands in the map.
abbrev pub HasEntry : String → String → Dict String → Type 0
HasEntry key value [] = ⊥
HasEntry key value ((k, v) ∷ m) = ((k ≡ key) × (v ≡ value)) ⊎ HasEntry key value m

-- The request carries the token of the environment, which the node serves.
abbrev pub HasToken : {Network : Type 0} → ServerConfig Network → Request → String → Type 0
HasToken cfg r env =
    (expected : String) × HasEntry env expected cfg.config.release_auth_tokens
    × (get_header "X-Release-Token" r ≡ trim_space expected)
    × (get_header "X-Release-Token" r ≢ "")
    × (accepts_env cfg.config env ≡ true)

module _ {Ip Network S : Type 0} (net : Net Ip Network) (lib : Library) (runner : Publisher S)
    (cfg : ServerConfig Network) where
  matches-HasEntry :
      (token env : String) (tokens : Dict String)
      → any (matches_token net lib runner cfg token env) tokens ≡ true
      → (key : String) × (expected : String) × HasEntry key expected tokens
        × (token ≡ trim_space expected)
        × (accepts_env cfg.config key ≡ true)
        × ((env ≡ "") ⊎ (key ≡ env))
  unfolding matches_token
  matches-HasEntry token env [] found = absurd (cc)
  matches-HasEntry token env ((key, expected) ∷ tokens) found =
      elim (Bool-cases (matches_token net lib runner cfg token env (key, expected))) [
        | inl here ↦ (
          key,
          expected,
          inl (refl, refl),
          ground (arith, eq_iff token (trim_space expected)),
          ground arith,
          ground (arith, eq_iff env "", eq_iff env key),
        )
        | inr apart ↦
            let (k, e, there, same, accepted_env, named) =
              matches-HasEntry token env tokens (rw apart at found) in
            (k, e, inr there, same, accepted_env, named)
      ]

  -- A request that is authorized for an environment, or for any, carries the token of one.
  is_authorized-HasToken :
      (r : Request) (env : String)
      → is_authorized net lib runner cfg r env ≡ true
      → (key : String) × HasToken cfg r key × ((env ≡ "") ⊎ (key ≡ env))
  unfolding is_authorized
  is_authorized-HasToken r env passed =
      let token = get_header "X-Release-Token" r in
      let some_match : any (matches_token net lib runner cfg token env)
            cfg.config.release_auth_tokens
          ≡ true =
        ground arith in
      let (key, expected, there, same, accepted_env, named) =
        matches-HasEntry token env cfg.config.release_auth_tokens some_match in
      (
        key,
        (expected, there, same, (λ blank. ground (arith, eq_iff token "")), accepted_env),
        named,
      )

  -- What follows `authorize` is done for an authorized request only.
  authorize-cases :
      (r : Request) (env : String) (rest : S → Response × S) (s : S)
      → ((authorize net lib runner cfg r env rest s).1 ≡ s)
        ⊎ ((is_authorized net lib runner cfg r env ≡ true)
            × (authorize net lib runner cfg r env rest s ≡ rest s))
  unfolding authorize
  authorize-cases r env rest s = elim (Bool-cases (is_authorized net lib runner cfg r env)) [
    | inl passed ↦ inr (passed, rw passed refl)
    | inr denied ↦ inl (rw denied refl)
  ]

  authorize-HasToken :
      (r : Request) (rest : S → Response × S) (s : S)
      → ((authorize net lib runner cfg r "" rest s).1 ≡ s) ⊎ ((env : String) × HasToken cfg r env)
  authorize-HasToken r rest s = elim (authorize-cases r "" rest s) [
    | inl same ↦ inl same
    | inr (passed, done) ↦
        let (env, token, named) = is_authorized-HasToken r "" passed in inr (env, token)
  ]

  handle_nginx_command-HasToken :
      (call : NginxCommandRequest → S → Result × S) (r : Request) (s : S)
      → ((handle_nginx_command net lib runner cfg call r s).1 ≡ s)
        ⊎ ((env : String) × HasToken cfg r env)
  unfolding handle_nginx_command
  handle_nginx_command-HasToken call r s =
      authorize-HasToken r
        (run_command net lib runner cfg r call
          (read_body (lib.decode_command cfg.max_request_bytes r.body)))
        s

  handle_route-HasToken :
      (route : Route) (r : Request) (s : S)
      → ((t : S) → (runner.health t).1 ≡ t)
      → ((handle_route net lib runner cfg route r s).1 ≡ s) ⊎ ((env : String) × HasToken cfg r env)
  unfolding handle_route handle_apply handle_rollback handle_state
  handle_route-HasToken apply_route r s reads =
      authorize-HasToken r
        (run_release net lib runner cfg r (λ req. req.env) runner.stage
          (read_body (lib.decode_apply cfg.max_request_bytes r.body)))
        s
  handle_route-HasToken rollback_route r s reads =
      authorize-HasToken r
        (run_release net lib runner cfg r (λ req. req.env) runner.rollback_current
          (read_body (lib.decode_rollback cfg.max_request_bytes r.body)))
        s
  handle_route-HasToken nginx_test_route r s reads =
      handle_nginx_command-HasToken runner.nginx_test r s
  handle_route-HasToken nginx_reload_route r s reads =
      handle_nginx_command-HasToken runner.nginx_reload r s
  handle_route-HasToken abort_route r s reads = handle_nginx_command-HasToken runner.abort r s
  handle_route-HasToken state_route r s reads =
      authorize-HasToken r (state_in_env net lib runner cfg r) s
  handle_route-HasToken health_route r s reads = inl (reads s)
  handle_route-HasToken metrics_route r s reads = inl (reads s)

  serve_mux-HasToken :
      (r : Request) (o : Option Route) (s : S)
      → ((t : S) → (runner.health t).1 ≡ t)
      → ((serve_mux net lib runner cfg r o s).1 ≡ s) ⊎ ((env : String) × HasToken cfg r env)
  unfolding serve_mux
  serve_mux-HasToken r none s reads = inl refl
  serve_mux-HasToken r (some route) s reads = handle_route-HasToken route r s reads

  -- Where `Health` only reads: a request that changes the state of the publisher comes from an address
  -- that is allowed, holds one of the slots, and carries the token of an environment that the node
  -- serves; every other request leaves the state as it was.
  pub serve-HasToken :
      (in_flight : ℕ) (r : Request) (s : S)
      → ((t : S) → (runner.health t).1 ≡ t)
      → ((serve net lib runner cfg in_flight r s).1 ≡ s)
        ⊎ ((client_ip_allowed net (effective_client_ip net cfg.access r) cfg.access ≡ true)
            × (in_flight < cfg.max_concurrent_requests)
            × ((env : String) × HasToken cfg r env))
  unfolding serve
  serve-HasToken in_flight r s reads =
      elim (Bool-cases (client_ip_allowed net (effective_client_ip net cfg.access r) cfg.access)) [
        | inr denied ↦ inl (rw denied refl)
        | inl allowed ↦ elim (Bool-cases (ltb in_flight cfg.max_concurrent_requests)) [
          | inr full ↦ inl (rw (allowed, full) refl)
          | inl free ↦ elim (serve_mux-HasToken r (lib.serve_mux routes r) s reads) [
            | inl same ↦ inl (rw (allowed, free) same)
            | inr token ↦ inr (allowed, ground arith, token)
          ]
        ]
      ]
