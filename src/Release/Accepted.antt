-- ===== src/Release/Accepted.antt =====
-- What internal/domain/release/validate.go promises of the requests that it lets pass.
use config_sync_nginx.Base.{
  eq_iff, String, Bool, true, false, ◌==◌, ◌≡◌, refl, ◌≤◌, arith, len, [], ◌∷◌, Error, Fallible, ok,
  err, ◌>>=◌, ◌>>◌, fail_if, inl, inr,
}
use config_sync_nginx.Base.Chain.{Fallible-cases}
use config_sync_nginx.Base.Dict.{Dict}
use config_sync_nginx.Base.Text.{codes, trim_space, contains_code}
use config_sync_nginx.Base.FilePath.{clean, is_abs}
use config_sync_nginx.Release.Types.{ApplyRequest, release_type_frontend_static}
use config_sync_nginx.Release.Identity.{
  is_id, is_commit, is_artifact_digest, validate_repo_site_directory_name, get_param,
  server_identity, is_release_type, resolve_apply_source_repo,
}
use config_sync_nginx.Release.Validate.{
  check_param_keys, validate_params, normalize_request, check_request, validate_normalized,
  validate_apply_request,
}

-- The identities of a request and the sizes of its texts, which are counted in characters.
abbrev pub HasIdentity : ApplyRequest → Type 0
HasIdentity r =
    (is_id r.release_id ≡ true)
    × (is_commit r.commit_id ≡ true)
    × ((r.env == "") ≡ false)
    × (len r.env ≤ 64)
    × (len r.branch ≤ 255)
    × (len r.project ≤ 128)
    × (len r.version ≤ 256)
    × (len r.operator ≤ 256)
    × (len r.build_url ≤ 2048)
    × (len r.app ≤ 128)
    × ((r.restore_of == "") ≡ false
        → (is_id r.restore_of ≡ true) × (is_id r.expected_state_revision ≡ true))
    × ((r.artifact_digest == "") ≡ false
        → (r.type ≡ release_type_frontend_static) × (is_artifact_digest r.artifact_digest ≡ true))

check_request-HasIdentity : (r : ApplyRequest) → check_request r ≡ ok tt → HasIdentity r
unfolding check_request
check_request-HasIdentity r passed = ground (arith, eq_iff r.type release_type_frontend_static)

-- The two parameters of a request in their normal form: a site name that is safe as a directory name,
-- and the path that `path_dest` gives, absolute and without a NUL.
abbrev pub HasParams : Dict String → Dict String → Type 0
HasParams params normal =
    (normal
      ≡ ("path_dest", clean (trim_space (get_param "path_dest" params)))
        ∷ ("server_name", server_identity params)
        ∷ [])
    × (validate_repo_site_directory_name (server_identity params) ≡ ok tt)
    × (is_abs (trim_space (get_param "path_dest" params)) ≡ true)
    × (contains_code 0 (codes (trim_space (get_param "path_dest" params))) ≡ false)
    × (len (trim_space (get_param "path_dest" params)) ≤ 4096)
    × (check_param_keys params ≡ ok tt)

-- What the success of the checks of `validate_params` says of each.
checks-passed :
    (site keys : Fallible (Unit {0})) (bad : Bool) (e : Error) (out normal : Dict String)
    → (site >> (fail_if bad e >> (keys >> ok out))) ≡ ok normal
    → (site ≡ ok tt) × (bad ≡ false) × (keys ≡ ok tt) × (normal ≡ out)
checks-passed (err f) keys bad e out normal passed = absurd (cc)
checks-passed (ok u) keys true e out normal passed = absurd (cc)
checks-passed (ok u) (err f) false e out normal passed = absurd (cc)
checks-passed (ok u) (ok v) false e out normal passed = (refl, refl, refl, cc)

validate_params-HasParams :
    (params normal : Dict String) → validate_params params ≡ ok normal → HasParams params normal
unfolding validate_params
validate_params-HasParams params normal passed =
    let facts =
      checks-passed (validate_repo_site_directory_name (server_identity params))
        (check_param_keys params) _ _ _ normal passed in
    (
      facts.3,
      facts.0,
      ground (arith, facts.1),
      ground (arith, facts.1),
      ground (arith, facts.1),
      facts.2,
    )

resolve-IsType :
    (r q : ApplyRequest)
    → resolve_apply_source_repo r ≡ ok q
    → (is_release_type r.type ≡ true) × (q ≡ record r { source_repo = r.type })
unfolding resolve_apply_source_repo
resolve-IsType r q passed = ground arith

-- What is known of an accepted request: its identities and sizes, a release type that the source
-- repository names too, and normal parameters.
abbrev pub IsAccepted : ApplyRequest → ApplyRequest → Type 0
IsAccepted r q =
    HasIdentity q
    × (is_release_type q.type ≡ true)
    × (q.source_repo ≡ q.type)
    × HasParams r.params q.params

accepted :
    (r : ApplyRequest) (checked : Fallible (Unit {0})) (resolved : Fallible ApplyRequest)
    (params : ApplyRequest → Fallible (Dict String)) (q : ApplyRequest)
    → (checked >> (resolved >>= λ r₂. params r₂ >>= λ ps. ok (record r₂ { params = ps }))) ≡ ok q
    → (checked ≡ ok tt)
      × (s : ApplyRequest) × (resolved ≡ ok s)
      × (ps : Dict String) × (params s ≡ ok ps)
      × (q ≡ record s { params = ps })
accepted r (err e) resolved params q passed = absurd (cc)
accepted r (ok u) (err e) params q passed = absurd (cc)
accepted r (ok u) (ok s) params q passed = elim (Fallible-cases (params s)) [
  | inl (e, failed) ↦ let h : err e ≡ ok q = rw failed at passed in absurd (cc)
  | inr (ps, done) ↦
      let h : ok (record s { params = ps }) ≡ ok q = rw done at passed in
      (refl, s, refl, ps, done, cc)
]

normalized-IsAccepted : (r q : ApplyRequest) → validate_normalized r ≡ ok q → IsAccepted r q
unfolding validate_normalized
normalized-IsAccepted r q passed =
    let all_ok =
      accepted r (check_request r) (resolve_apply_source_repo r) (λ s. validate_params s.params) q
        passed in
    let typed = resolve-IsType r all_ok.1 all_ok.2 in
    go r q all_ok.1 all_ok.3 (check_request-HasIdentity r all_ok.0) typed.0 typed.1 all_ok.4
      all_ok.5
  where
    go :
        (r q s : ApplyRequest) (ps : Dict String)
        → HasIdentity r
        → is_release_type r.type ≡ true
        → s ≡ record r { source_repo = r.type }
        → validate_params s.params ≡ ok ps
        → q ≡ record s { params = ps }
        → IsAccepted r q
    go r q s ps identity typed same params_ok all_same = rw (all_same) (
        rw (same)
          (identity, typed, refl, validate_params-HasParams r.params ps (rw same at params_ok)))

-- Every request that `ValidateApplyRequest` lets pass has a UUID and a full commit as its identities
-- (a restore also those of the original and of the revision that it expects), an environment of at most
-- 64 characters, a branch, a project, a version, an operator, a build URL and an app of at most 255, 128,
-- 256, 256, 2048 and 128 characters, an artifact digest only for a frontend and then a well-formed one, a known type
-- that the source repository repeats, and exactly the two parameters: a safe site name and the cleaned
-- form of an absolute path of at most 4096 characters without a NUL.
pub validate_apply_request-IsAccepted :
    (fresh : String) (r q : ApplyRequest)
    → validate_apply_request fresh r ≡ ok q
    → (normal : ApplyRequest) × (normalize_request fresh r ≡ ok normal) × IsAccepted normal q
unfolding validate_apply_request
validate_apply_request-IsAccepted fresh r q passed =
    elim (Fallible-cases (normalize_request fresh r)) [
      | inl (e, failed) ↦ let h : err e ≡ ok q = rw failed at passed in absurd (cc)
      | inr (normal, done) ↦ (normal, done, normalized-IsAccepted normal q (rw done at passed))
    ]
