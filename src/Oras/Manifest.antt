-- ===== src/Oras/Manifest.antt =====
-- `validateManifest` of internal/infrastructure/oras/client.go.
use config_sync_nginx.Base.{
  ℕ, ◌+◌, ◌-◌, String, Bool, not, ◌&&◌, ◌||◌, ◌==◌, ◌<>◌, List, [], ◌∷◌, other, Fallible, ok, ◌>>◌,
  ◌>>=◌, fail_if, nat_eq, ltb,
}
use config_sync_nginx.Base.Dict.{Dict, lookup, insert}
use config_sync_nginx.Base.Int.{ℤ, is_negative, is_below, to_nat}
use config_sync_nginx.Base.Keys.{has}
use config_sync_nginx.Release.Identity.{get_param, is_artifact_digest}

-- `descriptor`.
pub record Descriptor : Type 0 where
  pub media_type : String
  pub digest : String
  pub size : ℤ
  pub annotations : Dict String

-- `manifest`.
pub record OciManifest : Type 0 where
  pub schema_version : ℕ
  pub media_type : String
  pub artifact_type : String
  pub config : Descriptor
  pub layers : List Descriptor
  pub annotations : Dict String

abbrev pub dist_artifact_type : String
dist_artifact_type = "application/vnd.nginx.frontend.dist.v1"

-- The title of a layer.
unfoldable pub title : Descriptor → String
unfolding get_param
title d = get_param "org.opencontainers.image.title" d.annotations

abbrev pub is_known : String → Bool
is_known name = name == "dist.tar.gz" || name == "dist.tar.gz.sha256" || name == "manifest.json"

-- A layer that is no archive is small and of a plain type.
unfoldable pub is_bad_metadata : Descriptor → Bool
is_bad_metadata d =
    ltb 65536 (to_nat d.size)
    || (not (d.media_type == "application/json")
        && not (d.media_type == "text/plain")
        && not (d.media_type == "application/octet-stream"))

-- The names that were seen.
abbrev pub SeenTitles : Type 0
SeenTitles = Dict (Unit {0})

-- The tests of one layer, behind `total` bytes.
unfoldable pub check_layer : ℕ → ℕ → SeenTitles → Descriptor → Fallible (Unit {0})
unfolding title is_bad_metadata is_artifact_digest lookup
check_layer max_bytes total seen d = do
  fail_if (not (is_known (title d))) (other ("unexpected artifact file " <> title d))
  fail_if
      (has (title d) seen
        || not (is_artifact_digest d.digest)
        || is_below 1 d.size
        || ltb (max_bytes - total) (to_nat d.size))
      (other "invalid or oversized artifact layer")
  fail_if (has "io.deis.oras.content.unpack" d.annotations)
      (other "ORAS auto-unpack artifacts prohibited")
  fail_if (title d == "dist.tar.gz" && not (d.media_type == "application/gzip"))
      (other "dist.tar.gz layer must use application/gzip")
  fail_if (not (title d == "dist.tar.gz") && is_bad_metadata d) (other "invalid metadata layer")

-- The loop over the layers.
unfoldable pub check_layers : ℕ → ℕ → SeenTitles → List Descriptor → Fallible SeenTitles
unfolding insert
check_layers max_bytes total seen [] = ok seen
check_layers max_bytes total seen (d ∷ ds) = do
  check_layer max_bytes total seen d
  check_layers max_bytes (total + to_nat d.size) (insert (title d) tt seen) ds

-- `validateManifest` behind the decoding.
unfoldable pub check_decoded : OciManifest → String → ℕ → Fallible OciManifest
unfolding check_layers get_param is_artifact_digest lookup
check_decoded m commit max_bytes = do
  fail_if
      (not (nat_eq m.schema_version 2)
        || not (m.media_type == "application/vnd.oci.image.manifest.v1+json")
        || not (m.artifact_type == dist_artifact_type))
      (other "expected a frontend dist OCI artifact")
  fail_if (not (get_param "org.opencontainers.image.revision" m.annotations == commit))
      (other "artifact revision does not match requested full commit")
  fail_if
      (is_negative m.config.size
        || ltb 4096 (to_nat m.config.size)
        || not (is_artifact_digest m.config.digest))
      (other "invalid OCI config descriptor")
  seen ← check_layers max_bytes 0 [] m.layers
  fail_if (not (has "dist.tar.gz" seen)) (other "dist.tar.gz layer required")
  ok m

-- `validateManifest`; `sha256` is the hexadecimal digest of a text, and `decode` the JSON decoder.
unfoldable pub validate_manifest :
    (String → String)
    → (String → Fallible OciManifest)
    → String
    → String
    → String
    → ℕ
    → Fallible OciManifest
unfolding check_decoded
validate_manifest sha256 decode raw commit digest max_bytes = do
  fail_if (not (("sha256:" <> sha256 raw) == digest)) (other "OCI manifest digest mismatch")
  m ← decode raw
  check_decoded m commit max_bytes
