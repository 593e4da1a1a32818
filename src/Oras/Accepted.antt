-- ===== src/Oras/Accepted.antt =====
-- What is known of a manifest that `validateManifest` of internal/infrastructure/oras/client.go accepts.
use config_sync_nginx.Base.{
  ℕ, ◌+◌, ◌-◌, ◌≤◌, String, Bool, true, false, not, ◌||◌, ◌==◌, ◌<>◌, ◌≡◌, refl, sym, subst, List,
  [], ◌∷◌, Fallible, ok, ◌⊎◌, inl, inr, arith, All, eq_iff, Bool-cases, ltb, if◌then◌else◌,
}
use config_sync_nginx.Base.Chain.{>>-ok, >>=-ok, fail_if-ok, ok_injective}
use config_sync_nginx.Base.Dict.{lookup, insert, lookup-insert}
use config_sync_nginx.Base.Int.{is_below, to_nat}
use config_sync_nginx.Base.Keys.{has}
use config_sync_nginx.Release.Identity.{get_param, is_artifact_digest}
use config_sync_nginx.Oras.Manifest.{
  Descriptor, OciManifest, title, is_known, SeenTitles, check_layer, check_layers, check_decoded,
  validate_manifest,
}

-- The bytes of the layers.
unfoldable pub total_size : List Descriptor → ℕ
total_size [] = 0
total_size (d ∷ ds) = to_nat d.size + total_size ds

-- The layer has a known title, and a digest and a size that are well formed.
abbrev pub IsGoodLayer : Descriptor → Type 0
IsGoodLayer d =
    (is_known (title d) ≡ true) × (is_artifact_digest d.digest ≡ true) × (is_below 1 d.size ≡ false)

-- No title stands twice.
abbrev pub AreUnique : List Descriptor → Type 0
AreUnique [] = Unit
AreUnique (d ∷ ds) = All (λ e. (title d == title e) ≡ false) ds × AreUnique ds

-- One of the layers has the title.
abbrev pub HasTitle : String → List Descriptor → Type 0
HasTitle name [] = ⊥
HasTitle name (d ∷ ds) = (title d ≡ name) ⊎ HasTitle name ds

or_false : (a b : Bool) → (a || b) ≡ false → (a ≡ false) × (b ≡ false)
or_false false b e = (refl, e)
or_false true b e = absurd (cc)

not-false : (a : Bool) → not a ≡ false → a ≡ true
not-false true e = refl
not-false false e = absurd (cc)

sub_le : (m t s : ℕ) → t ≤ m → ltb (m - t) s ≡ false → t + s ≤ m
sub_le m t s fits e = ground arith

-- What the tests of one layer tell.
check_layer-ok :
    (max_bytes total : ℕ) (seen : SeenTitles) (d : Descriptor)
    → total ≤ max_bytes
    → check_layer max_bytes total seen d ≡ ok tt
    → IsGoodLayer d × (has (title d) seen ≡ false) × (total + to_nat d.size ≤ max_bytes)
unfolding check_layer
check_layer-ok max_bytes total seen d fits passed =
    let (known, behind) = fail_if-ok (not (is_known (title d))) _ _ passed in
    let (limits, behind₁) =
      fail_if-ok
        (has (title d) seen
          || not (is_artifact_digest d.digest)
          || is_below 1 d.size
          || ltb (max_bytes - total) (to_nat d.size))
        _ _ behind in
    let is_seen = has (title d) seen in
    let bad_digest = not (is_artifact_digest d.digest) in
    let is_empty = is_below 1 d.size in
    let (limits₁, small) =
      or_false (is_seen || bad_digest || is_empty) (ltb (max_bytes - total) (to_nat d.size))
        limits in
    let (limits₂, positive) = or_false (is_seen || bad_digest) is_empty limits₁ in
    let (fresh, digest) = or_false is_seen bad_digest limits₂ in
    (
      (
        not-false (is_known (title d)) known,
        not-false (is_artifact_digest d.digest) digest,
        positive,
      ),
      fresh,
      sub_le max_bytes total (to_nat d.size) fits small,
    )

has-insert :
    (key c : String) (m : SeenTitles)
    → has c (insert key tt m) ≡ (if key == c then true else has c m)
has-insert key c m = ground (arith, lookup-insert key c tt m)

-- The layers are good and their titles are new, apart, and all that is seen besides.
abbrev AreGood : SeenTitles → List Descriptor → Type 0
AreGood seen ds = All (λ d. IsGoodLayer d × (has (title d) seen ≡ false)) ds

All-fresh :
    (name : String) (seen : SeenTitles) (ds : List Descriptor)
    → AreGood (insert name tt seen) ds
    → AreGood seen ds × All (λ e. (name == title e) ≡ false) ds
All-fresh name seen [] good = (tt, tt)
All-fresh name seen (d ∷ ds) ((layer, fresh), good) =
    let (rest, apart) = All-fresh name seen ds good in
    let split = has-insert name (title d) seen in
    (((layer, ground arith), rest), (ground arith, apart))

check_layers-ok :
    (max_bytes total : ℕ) (seen : SeenTitles) (ds : List Descriptor) {after : SeenTitles}
    → total ≤ max_bytes
    → check_layers max_bytes total seen ds ≡ ok after
    → AreGood seen ds
      × AreUnique ds
      × (total + total_size ds ≤ max_bytes)
      × ((name : String) → has name after ≡ true → (has name seen ≡ true) ⊎ HasTitle name ds)
unfolding check_layers total_size
check_layers-ok max_bytes total seen [] fits passed =
    let same = ok_injective passed in
    (tt, tt, omega arith, λ name there. inl (subst (λ m. has name m ≡ true) (sym same) there))
check_layers-ok max_bytes total seen (d ∷ ds) fits passed =
    let (here, behind) = >>-ok (check_layer max_bytes total seen d) _ passed in
    let (layer, fresh, fits₁) = check_layer-ok max_bytes total seen d fits here in
    let (good, unique, small, known) =
      check_layers-ok max_bytes (total + to_nat d.size) (insert (title d) tt seen) ds fits₁
        behind in
    let (rest, apart) = All-fresh (title d) seen ds good in
    (
      ((layer, fresh), rest),
      (apart, unique),
      omega (arith, small),
      λ name there. elim (known name there) [
        | inr later ↦ inr (inr later)
        | inl before ↦
            let split = has-insert (title d) name seen in
            elim (Bool-cases (title d == name)) [
              | inl same ↦ inr (inl ((eq_iff (title d) name).0 same))
              | inr other_name ↦ inl (ground arith)
            ]
      ],
    )

-- A manifest for a commit, within a number of bytes: it is of the revision, its layers are good and have
-- each a title of their own, one of them is the archive, and all of them fit.
abbrev pub IsAcceptedFor : String → ℕ → OciManifest → Type 0
IsAcceptedFor commit max_bytes m =
    (get_param "org.opencontainers.image.revision" m.annotations ≡ commit)
    × All IsGoodLayer m.layers
    × AreUnique m.layers
    × HasTitle "dist.tar.gz" m.layers
    × (total_size m.layers ≤ max_bytes)

All-first : (seen : SeenTitles) (ds : List Descriptor) → AreGood seen ds → All IsGoodLayer ds
All-first seen [] good = tt
All-first seen (d ∷ ds) ((layer, fresh), good) = (layer, All-first seen ds good)

check_decoded-ok :
    (m : OciManifest) (commit : String) (max_bytes : ℕ) {done : OciManifest}
    → check_decoded m commit max_bytes ≡ ok done
    → IsAcceptedFor commit max_bytes done
unfolding check_decoded lookup
check_decoded-ok m commit max_bytes passed =
    let (kind, behind) = fail_if-ok _ _ _ passed in
    let revision = get_param "org.opencontainers.image.revision" m.annotations in
    let (of_commit, behind₁) = fail_if-ok (not (revision == commit)) _ _ behind in
    let (config_ok, behind₂) = fail_if-ok _ _ _ behind₁ in
    let (seen, layers_ok, behind₃) = >>=-ok (check_layers max_bytes 0 [] m.layers) _ behind₂ in
    let (dist, given) = fail_if-ok (not (has "dist.tar.gz" seen)) _ _ behind₃ in
    let (good, unique, small, known) =
      check_layers-ok max_bytes 0 [] m.layers (omega arith) layers_ok in
    let there : HasTitle "dist.tar.gz" m.layers =
      elim (known "dist.tar.gz" (not-false (has "dist.tar.gz" seen) dist)) [
        | inl never ↦ absurd (cc)
        | inr found ↦ found
      ] in
    subst (IsAcceptedFor commit max_bytes) (ok_injective given) (
      (eq_iff revision commit).0 (not-false (revision == commit) of_commit),
      All-first [] m.layers good,
      unique,
      there,
      omega (arith, small),
    )

-- A manifest that `validateManifest` accepts has the digest that was asked for, is of the requested
-- commit, and its layers are well formed, have known titles, each once, among them the archive, and are
-- together no larger than allowed.
pub validate_manifest-IsAcceptedFor :
    (sha256 : String → String) (decode : String → Fallible OciManifest) (raw commit digest : String)
    (max_bytes : ℕ) (m : OciManifest)
    → validate_manifest sha256 decode raw commit digest max_bytes ≡ ok m
    → (("sha256:" <> sha256 raw) ≡ digest) × IsAcceptedFor commit max_bytes m
unfolding validate_manifest
validate_manifest-IsAcceptedFor sha256 decode raw commit digest max_bytes m accepted =
    let (same, behind) = fail_if-ok (not (("sha256:" <> sha256 raw) == digest)) _ _ accepted in
    let (decoded, read, behind₁) = >>=-ok (decode raw) _ behind in
    (
      (eq_iff ("sha256:" <> sha256 raw) digest).0
          (not-false (("sha256:" <> sha256 raw) == digest) same),
      check_decoded-ok decoded commit max_bytes behind₁,
    )
