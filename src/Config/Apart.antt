-- ===== src/Config/Apart.antt =====
-- The directories of the targets that internal/config/load.go accepts and resolves.
use config_sync_nginx.Base.{
  All, String, true, false, ◌==◌, ◌≡◌, sym, ap, subst, List, [], ◌∷◌, ◌++◌, ok, inl, inr, arith,
  Bool-cases, nat_eq, length, ◌∙◌,
}
use config_sync_nginx.Base.Chain.{>>-ok, >>=-ok, fail_if-ok, ok_injective}
use config_sync_nginx.State.{Target, is_template}
use config_sync_nginx.Config.Types.{Config, Outside}
use config_sync_nginx.Config.Resolve.{
  dir_of, overlap, overlaps_service, overlaps_site, resolve_paths,
}
use config_sync_nginx.Config.Settings.{check_file_mode, validate_checks, check_required}
use config_sync_nginx.Config.Validate.{
  Seen, check_name, check_type, place, place_site, check_settings, check_target, check_targets,
  check_limits, with_defaults, validate, validate_targets, targets_of, validate_node,
}

-- A path that is resolved does not overlap the service.
pub resolve_paths-apart :
    (o : Outside) (c : Config) (t : Target) (env : String) {found : Target}
    → resolve_paths o c t env ≡ ok found
    → overlaps_service o c found.dir ≡ false
unfolding resolve_paths
resolve_paths-apart o c t env {found} resolved =
    let (path_dest, canonical, behind) = >>=-ok (o.canonical t.path_dest) _ resolved in
    let (not_root, behind₁) = fail_if-ok (path_dest == "/") _ _ behind in
    let (apart, given) = fail_if-ok (overlaps_service o c (dir_of o t path_dest)) _ _ behind₁ in
    let same = ap (λ (x : Target). x.dir) (ok_injective given) in
    subst (λ d. overlaps_service o c d ≡ false) same apart

-- What a checked target keeps behind `place`: its directory, and whether it is a template.
check_settings-dir :
    (o : Outside) (c : Config) (t : Target) {done : Target}
    → check_settings o c t ≡ ok done
    → (done.dir ≡ t.dir) × (is_template done ≡ is_template t)
unfolding check_settings is_template
check_settings-dir o c t {done} checked =
    let (mode, behind) = >>-ok (check_file_mode o _) _ checked in
    let (git, behind₁) = >>-ok _ _ behind in
    let (checks, good, behind₂) = >>=-ok (validate_checks o true t.health_checks) _ behind₁ in
    let (initial, fine, behind₃) =
      >>=-ok (validate_checks o false t.initial_health_checks) _ behind₂ in
    let (front, behind₄) = >>-ok _ _ behind₃ in
    let (files, given) = >>-ok (check_required t.required_files) _ behind₄ in
    let same = ok_injective given in
    (sym (ap (λ (x : Target). x.dir) same), sym (ap (λ (x : Target). is_template x) same))

place-apart :
    (o : Outside) (c : Config) (earlier : List Target) (t : Target) (seen : Seen)
    {found : Target × Seen}
    → place o c earlier t seen ≡ ok found
    → is_template found.0 ≡ false
    → (overlaps_site found.0.dir earlier ≡ false) × (overlaps_service o c found.0.dir ≡ false)
unfolding place place_site
place-apart o c earlier t seen {found} placed site = elim (Bool-cases (is_template t)) [
  | inl template ↦
      let same = ok_injective (rw template at placed) in
      let both : is_template t ≡ false = ap (λ (x : Target × Seen). is_template x.0) same ∙ site in
      absurd (cc)
  | inr named ↦
      let (env, behind) = fail_if-ok (c.env == "") _ _ (rw named at placed) in
      let (at_path, resolved, behind₁) = >>=-ok (resolve_paths o c t c.env) _ behind in
      let (apart, behind₂) = fail_if-ok (overlaps_site at_path.dir earlier) _ _ behind₁ in
      let (fresh, given) = fail_if-ok _ _ _ behind₂ in
      let same = ap (λ (x : Target × Seen). x.0.dir) (ok_injective given) in
      (
        subst (λ d. overlaps_site d earlier ≡ false) same apart,
        subst (λ d. overlaps_service o c d ≡ false) same (resolve_paths-apart o c t c.env resolved),
      )
]

-- Neither of two sites is inside of the other.
abbrev pub AreDisjoint : Target → Target → Type 0
AreDisjoint t u = is_template t ≡ false → is_template u ≡ false → overlap t.dir u.dir ≡ false

-- A site is apart from the state of the service and from its lock.
abbrev pub IsOutside : Outside → Config → Target → Type 0
IsOutside o c t = is_template t ≡ false → overlaps_service o c t.dir ≡ false

-- No two sites of the list overlap.
abbrev pub AreApart : List Target → Type 0
AreApart [] = Unit
AreApart (t ∷ ts) = All (λ u. AreDisjoint u t) ts × AreApart ts

All-++ {ℓ κ} :
    {A : Type ℓ} (P : A → Type κ) (xs ys : List A) → All P (xs ++ ys) → All P xs × All P ys
All-++ P [] ys every = (tt, every)
All-++ P (x ∷ xs) ys (here, every) =
    let (front, back) = All-++ P xs ys every in ((here, front), back)

All-map {ℓ κ μ} :
    {A : Type ℓ} (P : A → Type κ) (Q : A → Type μ) (xs : List A)
    → ((x : A) → P x → Q x)
    → All P xs
    → All Q xs
All-map P Q [] f every = tt
All-map P Q (x ∷ xs) f (here, every) = (f x here, All-map P Q xs f every)

overlaps_site-All :
    (t : Target) (others : List Target)
    → (is_template t ≡ false → overlaps_site t.dir others ≡ false)
    → All (λ u. AreDisjoint t u) others
unfolding overlaps_site
overlaps_site-All t [] apart = tt
overlaps_site-All t (u ∷ others) apart = (
  λ site site₁. let none_of = apart site in ground arith,
  overlaps_site-All t others (λ site. let none_of = apart site in ground arith),
)

-- What the loop knows of a target: it is apart from those before it, and from the service.
abbrev Placed : Outside → Config → List Target → Target → Type 0
Placed o c earlier t = All (λ u. AreDisjoint t u) earlier × IsOutside o c t

check_target-Placed :
    (o : Outside) (c : Config) (earlier : List Target) (seen : Seen) (t : Target)
    {found : Target × Seen}
    → check_target o c earlier seen t ≡ ok found
    → Placed o c earlier found.0
unfolding check_target
check_target-Placed o c earlier seen t {found} checked =
    let (named, name_ok, behind) = >>=-ok (check_name t seen) _ checked in
    let (type_ok, behind₁) = >>-ok (check_type o c t) _ behind in
    let (placed, place_ok, behind₂) =
      >>=-ok (place o c earlier (record t { env = c.env }) named) _ behind₁ in
    let (done, settings_ok, given) = >>=-ok (check_settings o c placed.0) _ behind₂ in
    let (same_dir, same_kind) = check_settings-dir o c placed.0 settings_ok in
    let apart : is_template done ≡ false
        → (overlaps_site done.dir earlier ≡ false) × (overlaps_service o c done.dir ≡ false) =
      λ site.
        let (a, b) =
          place-apart o c earlier (record t { env = c.env }) named place_ok
            (sym same_kind ∙ site) in
        (
          subst (λ d. overlaps_site d earlier ≡ false) (sym same_dir) a,
          subst (λ d. overlaps_service o c d ≡ false) (sym same_dir) b,
        ) in
    subst (λ x. Placed o c earlier x) (ap (λ (x : Target × Seen). x.0) (ok_injective given))
      (overlaps_site-All done earlier (λ site. (apart site).0), λ site. (apart site).1)

check_targets-AreApart :
    (o : Outside) (c : Config) (earlier : List Target) (seen : Seen) (ts : List Target)
    {checked : List Target}
    → check_targets o c earlier seen ts ≡ ok checked
    → All (Placed o c earlier) checked × AreApart checked
unfolding check_targets
check_targets-AreApart o c earlier seen [] passed =
    let same = ok_injective passed in
    subst (λ l. All (Placed o c earlier) l × AreApart l) same (tt, tt)
check_targets-AreApart o c earlier seen (t ∷ ts) passed =
    let (found, here, behind) = >>=-ok (check_target o c earlier seen t) _ passed in
    let (rest, later, given) =
      >>=-ok (check_targets o c (earlier ++ (found.0 ∷ [])) found.1 ts) _ behind in
    let placed = check_target-Placed o c earlier seen t here in
    let (every, apart) = check_targets-AreApart o c (earlier ++ (found.0 ∷ [])) found.1 ts later in
    let before =
      All-map (Placed o c (earlier ++ (found.0 ∷ []))) (Placed o c earlier) rest
        (λ u p. ((All-++ (λ v. AreDisjoint u v) earlier (found.0 ∷ []) p.0).0, p.1)) every in
    let behind_found =
      All-map (Placed o c (earlier ++ (found.0 ∷ []))) (λ u. AreDisjoint u found.0) rest
        (λ u p. (All-++ (λ v. AreDisjoint u v) earlier (found.0 ∷ []) p.0).1.0) every in
    subst (λ l. All (Placed o c earlier) l × AreApart l) (ok_injective given)
      ((placed, before), (behind_found, apart))

validate_targets-AreApart :
    (o : Outside) (c : Config) {done : Config}
    → validate_targets o c ≡ ok done
    → AreApart done.targets × All (IsOutside o done) done.targets
unfolding validate_targets overlaps_service
validate_targets-AreApart o c {done} accepted =
    let (some_target, behind) = fail_if-ok (nat_eq (length (targets_of c)) 0) _ _ accepted in
    let (checked, targets_ok, given) = >>=-ok (check_targets o c [] [] (targets_of c)) _ behind in
    let (every, apart) = check_targets-AreApart o c [] [] (targets_of c) targets_ok in
    let outside = All-map (Placed o c []) (IsOutside o c) checked (λ t p. p.1) every in
    subst (λ x. AreApart x.targets × All (IsOutside o x) x.targets) (ok_injective given)
      (apart, outside)

-- The sites of a configuration that `Validate` accepts lie apart from each other, from the data
-- directory and from the lock file.
pub validate-AreApart :
    (o : Outside) (c₀ c : Config)
    → validate o c₀ ≡ ok c
    → AreApart c.targets × All (IsOutside o c) c.targets
unfolding validate
validate-AreApart o c₀ c accepted =
    let (node, node_ok, behind) = >>=-ok (validate_node o c₀) _ accepted in
    let (limits_ok, behind₁) = >>-ok (check_limits (with_defaults node)) _ behind in
    validate_targets-AreApart o (with_defaults node) behind₁
