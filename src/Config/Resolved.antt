-- ===== src/Config/Resolved.antt =====
-- The target that `TargetForEnv` of internal/config/load.go gives to a request.
use config_sync_nginx.Base.{
  All, String, Bool, true, false, not, ◌&&◌, ◌==◌, ◌≡◌, refl, subst, sym, ap, ◌∙◌, eq_iff, List, [],
  ◌∷◌, Option, none, some, other, ok, err, ◌⊎◌, inl, inr, arith, Bool-cases, find,
}
use config_sync_nginx.Base.Chain.{>>-ok, >>=-ok, fail_if-ok, ok_injective}
use config_sync_nginx.Release.Types.{ReleaseType}
use config_sync_nginx.Release.Identity.{validate_repo_site_directory_name}
use config_sync_nginx.State.{Target, is_template}
use config_sync_nginx.Config.Types.{Config, Outside}
use config_sync_nginx.Config.Resolve.{
  overlaps_service, overlaps_site, resolve_paths, instantiate, authorize_project, accepts_env,
  target_for_env, choose_target, is_site, fill_template,
}
use config_sync_nginx.Config.Validate.{validate}
use config_sync_nginx.Config.Environment.{IsOfNode, instantiate-env, validate-IsOfNode}
use config_sync_nginx.Config.Apart.{IsOutside, resolve_paths-apart, validate-AreApart}

-- The target stands in the list.
abbrev pub IsAmong : Target → List Target → Type 0
IsAmong t [] = ⊥
IsAmong t (u ∷ us) = (u ≡ t) ⊎ IsAmong t us

find-IsAmong :
    (p : Target → Bool) (ts : List Target) {t : Target}
    → find p ts ≡ some t
    → (p t ≡ true) × IsAmong t ts
find-IsAmong p [] found = absurd (cc)
find-IsAmong p (u ∷ us) {t} found = elim (Bool-cases (p u)) [
  | inl here ↦
      let same_some : some u ≡ some t = rw here at found in
      let same : u ≡ t = cc in (subst (λ x. p x ≡ true) same here, inl same)
  | inr there ↦ let (passes, among) = find-IsAmong p us (rw there at found) in (passes, inr among)
]

All-IsAmong {ℓ} :
    (P : Target → Type ℓ) (ts : List Target) (t : Target) → All P ts → IsAmong t ts → P t
All-IsAmong P [] t every among = elim among [ ]
All-IsAmong P (u ∷ us) t (here, every) (inl same) = subst P same here
All-IsAmong P (u ∷ us) t (here, every) (inr among) = All-IsAmong P us t every among

instantiate-apart :
    (o : Outside) (c : Config) (t : Target) (site real project env : String) {done : Target}
    → instantiate o c t site real project env ≡ ok done
    → (overlaps_service o c done.dir ≡ false) × (overlaps_site done.dir c.targets ≡ false)
unfolding instantiate
instantiate-apart o c t site real project env made =
    let (repository_ok, behind) = >>-ok _ _ made in
    let (found, resolved, behind₁) =
      >>=-ok (resolve_paths o c (fill_template o c t site real project) env) _ behind in
    let (apart, given) = fail_if-ok (overlaps_site found.dir c.targets) _ _ behind₁ in
    subst (λ x. (overlaps_service o c x.dir ≡ false) × (overlaps_site x.dir c.targets ≡ false))
      (ok_injective given)
      (resolve_paths-apart o c (fill_template o c t site real project) env resolved, apart)

authorize_project-same :
    (t : Target) (project : String) {done : Target}
    → authorize_project t project ≡ ok done
    → t ≡ done
unfolding authorize_project
authorize_project-same t project {done} passed =
    elim (Bool-cases (not (t.project == "") && not (project == "") && not (project == t.project))) [
      | inl foreign ↦
          let h : err (other "project not authorized") ≡ ok done = rw foreign at passed in
          absurd (cc)
      | inr known ↦ ok_injective (rw known at passed)
    ]

-- A target that is resolved has the environment of the request, which the node serves; its directory lies apart from
-- the data directory and the lock, and it is a site of the configuration or apart from all of these.
abbrev pub IsResolved : Outside → Config → String → Target → Type 0
IsResolved o c env t =
    (t.env ≡ env)
    × (accepts_env c env ≡ true)
    × (overlaps_service o c t.dir ≡ false)
    × (IsAmong t c.targets ⊎ (overlaps_site t.dir c.targets ≡ false))

choose_target-apart :
    (o : Outside) (c : Config) (typ : ReleaseType) (site real project env : String)
    (configured template : Option Target) {t : Target}
    → All (IsOutside o c) c.targets
    → find (is_site typ site real) c.targets ≡ configured
    → choose_target o c site real project env configured template ≡ ok t
    → (overlaps_service o c t.dir ≡ false)
      × (IsAmong t c.targets ⊎ (overlaps_site t.dir c.targets ≡ false))
unfolding choose_target is_site
choose_target-apart o c typ site real project env none none outside e chosen = absurd (cc)
choose_target-apart o c typ site real project env none (some u) outside e chosen =
    let (apart, alone) = instantiate-apart o c u site real project env chosen in (apart, inr alone)
choose_target-apart o c typ site real project env (some u) template outside e chosen =
    let (passes, among) = find-IsAmong (is_site typ site real) c.targets e in
    let site_is : is_template u ≡ false = ground arith in
    let apart = All-IsAmong (IsOutside o c) c.targets u outside among site_is in
    subst
      (λ x.
        (overlaps_service o c x.dir ≡ false)
        × (IsAmong x c.targets ⊎ (overlaps_site x.dir c.targets ≡ false)))
      (authorize_project-same u project chosen) (apart, inl among)

-- A site is for the environment of its node, and a node with an environment serves no other.
choose_target-env :
    (o : Outside) (c : Config) (typ : ReleaseType) (site real project env : String)
    (configured template : Option Target) {t : Target}
    → accepts_env c env ≡ true
    → All (IsOfNode c) c.targets
    → find (is_site typ site real) c.targets ≡ configured
    → choose_target o c site real project env configured template ≡ ok t
    → env ≡ t.env
unfolding choose_target is_site accepts_env
choose_target-env o c typ site real project env none none served of_node e chosen = absurd (cc)
choose_target-env o c typ site real project env none (some u) served of_node e chosen =
    instantiate-env o c u site real project env chosen
choose_target-env o c typ site real project env (some u) template served of_node e chosen =
    let (passes, among) = find-IsAmong (is_site typ site real) c.targets e in
    let site_is : is_template u ≡ false = ground arith in
    let (same, named) = All-IsAmong (IsOfNode c) c.targets u of_node among site_is in
    let node_env : c.env ≡ env = ground (arith, eq_iff c.env env) in
    sym node_env ∙ (same ∙ ap (λ (x : Target). x.env) (authorize_project-same u project chosen))

-- Under a configuration that `Validate` accepts, every target that `TargetForEnv` gives has the
-- environment that was asked for, which the node serves, lies apart from the data directory and the lock file, and is one
-- of the configured sites or does not overlap any of them.
pub target_for_env-IsResolved :
    (o : Outside) (c₀ c : Config) (typ : ReleaseType) (site root project env : String) (t : Target)
    → validate o c₀ ≡ ok c
    → target_for_env o c typ site root project env ≡ ok t
    → IsResolved o c env t
unfolding target_for_env
target_for_env-IsResolved o c₀ c typ site root project env t accepted resolved =
    let (served, behind) = fail_if-ok (not (accepts_env c env)) _ _ resolved in
    let (name_ok, behind₁) = >>-ok (validate_repo_site_directory_name site) _ behind in
    let (real, canonical, behind₂) = >>=-ok (o.canonical root) _ behind₁ in
    let (apart, place) =
      choose_target-apart o c typ site real project env (find (is_site typ site real) c.targets) _
        (validate-AreApart o c₀ c accepted).1 refl behind₂ in
    let served_env : accepts_env c env ≡ true = ground arith in
    let same =
      choose_target-env o c typ site real project env (find (is_site typ site real) c.targets) _
        served_env (validate-IsOfNode o c₀ c accepted) refl behind₂ in
    (sym same, served_env, apart, place)
