-- ===== src/Oras/Examples.antt =====
-- A manifest with an archive, and what internal/infrastructure/oras/client.go makes of it.
use config_sync_nginx.Base.{String, ◌<>◌, ◌≡◌, refl, [], ◌∷◌, ok}
use config_sync_nginx.Base.Int.{pos}
use config_sync_nginx.Release.Examples.{first_commit}
use config_sync_nginx.Oras.Manifest.{
  Descriptor, OciManifest, dist_artifact_type, check_layer, validate_manifest,
}
use config_sync_nginx.Oras.Accepted.{IsAcceptedFor, validate_manifest-IsAcceptedFor}

abbrev plain_digest : String
plain_digest = "0123456789abcdef0123456789abcdef0123456789abcdef0123456789abcdef"

abbrev dist_layer : Descriptor
dist_layer = record {
  media_type = "application/gzip";
  digest = "sha256:" <> plain_digest;
  size = pos 4096;
  annotations = ("org.opencontainers.image.title", "dist.tar.gz") ∷ [];
}

abbrev dist_manifest : OciManifest
dist_manifest = record {
  schema_version = 2;
  media_type = "application/vnd.oci.image.manifest.v1+json";
  artifact_type = dist_artifact_type;
  config = record dist_layer { size = pos 2 };
  layers = dist_layer ∷ [];
  annotations = ("org.opencontainers.image.revision", first_commit) ∷ [];
}

validate_manifest-IsAcceptedFor_example :
    (("sha256:" <> plain_digest) ≡ ("sha256:" <> plain_digest))
    × IsAcceptedFor first_commit 8192 dist_manifest
unfolding validate_manifest check_layer
validate_manifest-IsAcceptedFor_example =
    validate_manifest-IsAcceptedFor (λ text. plain_digest) (λ text. ok dist_manifest) ""
      first_commit ("sha256:" <> plain_digest) 8192 dist_manifest refl
