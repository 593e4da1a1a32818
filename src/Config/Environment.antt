-- ===== src/Config/Environment.antt =====
-- The environments of the targets that internal/config/load.go accepts and resolves.
use config_sync_nginx.Base.{
  All, String, true, false, ◌==◌, ◌≡◌, ap, subst, List, [], ◌∷◌, ◌++◌, ok, inl, inr, Bool-cases,
  nat_eq, length, ◌∙◌,
}
use config_sync_nginx.Base.Chain.{>>-ok, >>=-ok, fail_if-ok, ok_injective}
use config_sync_nginx.State.{Target, is_template}
use config_sync_nginx.Config.Types.{Config, Outside}
use config_sync_nginx.Config.Resolve.{
  dir_of, overlaps_service, overlaps_site, resolve_paths, instantiate, fill_template,
}
use config_sync_nginx.Config.Settings.{check_file_mode, validate_checks, check_required}
use config_sync_nginx.Config.Validate.{
  Seen, check_name, check_type, place, place_site, check_settings, check_target, check_targets,
  check_limits, with_defaults, validate, validate_targets, targets_of, validate_node,
}

-- A path that is resolved is for the given environment.
pub resolve_paths-env :
    (o : Outside) (c : Config) (t : Target) (env : String) {found : Target}
    → resolve_paths o c t env ≡ ok found
    → env ≡ found.env
unfolding resolve_paths
resolve_paths-env o c t env {found} resolved =
    let (path_dest, canonical, behind) = >>=-ok (o.canonical t.path_dest) _ resolved in
    let (not_root, behind₁) = fail_if-ok (path_dest == "/") _ _ behind in
    let (apart, given) = fail_if-ok (overlaps_service o c (dir_of o t path_dest)) _ _ behind₁ in
    ap (λ (x : Target). x.env) (ok_injective given)

pub instantiate-env :
    (o : Outside) (c : Config) (t : Target) (site real project env : String) {done : Target}
    → instantiate o c t site real project env ≡ ok done
    → env ≡ done.env
unfolding instantiate
instantiate-env o c t site real project env made =
    let (repository_ok, behind) = >>-ok _ _ made in
    let (found, resolved, behind₁) =
      >>=-ok (resolve_paths o c (fill_template o c t site real project) env) _ behind in
    let (apart, given) = fail_if-ok (overlaps_site found.dir c.targets) _ _ behind₁ in
    resolve_paths-env o c (fill_template o c t site real project) env resolved
    ∙ ap (λ (x : Target). x.env) (ok_injective given)

check_settings-env :
    (o : Outside) (c : Config) (t : Target) {done : Target}
    → check_settings o c t ≡ ok done
    → (t.env ≡ done.env) × (is_template t ≡ is_template done)
unfolding check_settings is_template
check_settings-env o c t {done} checked =
    let (mode, behind) = >>-ok (check_file_mode o _) _ checked in
    let (git, behind₁) = >>-ok _ _ behind in
    let (checks, good, behind₂) = >>=-ok (validate_checks o true t.health_checks) _ behind₁ in
    let (initial, fine, behind₃) =
      >>=-ok (validate_checks o false t.initial_health_checks) _ behind₂ in
    let (front, behind₄) = >>-ok _ _ behind₃ in
    let (files, given) = >>-ok (check_required t.required_files) _ behind₄ in
    let same = ok_injective given in
    (ap (λ (x : Target). x.env) same, ap (λ (x : Target). is_template x) same)

-- A site is for the environment of the node, which is set.
abbrev pub IsOfNode : Config → Target → Type 0
IsOfNode c t = is_template t ≡ false → (c.env ≡ t.env) × ((c.env == "") ≡ false)

place-IsOfNode :
    (o : Outside) (c : Config) (earlier : List Target) (t : Target) (seen : Seen)
    {found : Target × Seen}
    → place o c earlier t seen ≡ ok found
    → IsOfNode c found.0
unfolding place place_site
place-IsOfNode o c earlier t seen {found} placed site = elim (Bool-cases (is_template t)) [
  | inl template ↦
      let same = ok_injective (rw template at placed) in
      let both : is_template t ≡ false = ap (λ (x : Target × Seen). is_template x.0) same ∙ site in
      absurd (cc)
  | inr named ↦
      let (env, behind) = fail_if-ok (c.env == "") _ _ (rw named at placed) in
      let (at_path, resolved, behind₁) = >>=-ok (resolve_paths o c t c.env) _ behind in
      let (apart, behind₂) = fail_if-ok (overlaps_site at_path.dir earlier) _ _ behind₁ in
      let (fresh, given) = fail_if-ok _ _ _ behind₂ in
      (
        resolve_paths-env o c t c.env resolved
            ∙ ap (λ (x : Target × Seen). x.0.env) (ok_injective given),
        env,
      )
]

check_target-IsOfNode :
    (o : Outside) (c : Config) (earlier : List Target) (seen : Seen) (t : Target)
    {found : Target × Seen}
    → check_target o c earlier seen t ≡ ok found
    → IsOfNode c found.0
unfolding check_target
check_target-IsOfNode o c earlier seen t {found} checked =
    let (named, name_ok, behind) = >>=-ok (check_name t seen) _ checked in
    let (type_ok, behind₁) = >>-ok (check_type o c t) _ behind in
    let (placed, place_ok, behind₂) =
      >>=-ok (place o c earlier (record t { env = c.env }) named) _ behind₁ in
    let (done, settings_ok, given) = >>=-ok (check_settings o c placed.0) _ behind₂ in
    let (same_env, same_kind) = check_settings-env o c placed.0 settings_ok in
    subst (λ x. IsOfNode c x) (ap (λ (x : Target × Seen). x.0) (ok_injective given))
      (λ site.
        let of_node =
          place-IsOfNode o c earlier (record t { env = c.env }) named place_ok (same_kind ∙ site) in
        (of_node.0 ∙ same_env, of_node.1))

check_targets-IsOfNode :
    (o : Outside) (c : Config) (earlier : List Target) (seen : Seen) (ts : List Target)
    {checked : List Target}
    → check_targets o c earlier seen ts ≡ ok checked
    → All (IsOfNode c) checked
unfolding check_targets
check_targets-IsOfNode o c earlier seen [] passed =
    subst (All (IsOfNode c)) (ok_injective passed) tt
check_targets-IsOfNode o c earlier seen (t ∷ ts) passed =
    let (found, here, behind) = >>=-ok (check_target o c earlier seen t) _ passed in
    let (rest, later, given) =
      >>=-ok (check_targets o c (earlier ++ (found.0 ∷ [])) found.1 ts) _ behind in
    subst (All (IsOfNode c)) (ok_injective given) (
      check_target-IsOfNode o c earlier seen t here,
      check_targets-IsOfNode o c (earlier ++ (found.0 ∷ [])) found.1 ts later,
    )

validate_targets-IsOfNode :
    (o : Outside) (c : Config) {done : Config}
    → validate_targets o c ≡ ok done
    → All (IsOfNode done) done.targets
unfolding validate_targets
validate_targets-IsOfNode o c {done} accepted =
    let (some_target, behind) = fail_if-ok (nat_eq (length (targets_of c)) 0) _ _ accepted in
    let (checked, targets_ok, given) = >>=-ok (check_targets o c [] [] (targets_of c)) _ behind in
    subst (λ x. All (IsOfNode x) x.targets) (ok_injective given)
      (check_targets-IsOfNode o c [] [] (targets_of c) targets_ok)

-- The sites of an accepted configuration are for the environment of its node.
pub validate-IsOfNode :
    (o : Outside) (c₀ c : Config) → validate o c₀ ≡ ok c → All (IsOfNode c) c.targets
unfolding validate
validate-IsOfNode o c₀ c accepted =
    let (node, node_ok, behind) = >>=-ok (validate_node o c₀) _ accepted in
    let (limits_ok, behind₁) = >>-ok (check_limits (with_defaults node)) _ behind in
    validate_targets-IsOfNode o (with_defaults node) behind₁
