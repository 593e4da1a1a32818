-- ===== src/Publisher/Links.antt =====
-- The text of the link `latest`, as internal/application/publisher/runner.go reads it.
use config_sync_nginx.Base.{
  String, Bool-cases, inl, inr, true, false, ◌==◌, ◌≡◌, arith, Fallible, ok, err,
}
use config_sync_nginx.Base.FilePath.{is_abs, rel}
use config_sync_nginx.Release.Identity.{is_commit}
use config_sync_nginx.State.{Target}
use config_sync_nginx.Publisher.World.{if◌then◌else◌, on_fail}
use config_sync_nginx.Publisher.Steps.{
  snapshot_commit, check_snapshot_link, normalize_snapshot_link,
}

check_snapshot_link-IsCommit :
    (raw out : String) → check_snapshot_link raw ≡ ok out → is_commit (snapshot_commit out) ≡ true
unfolding check_snapshot_link snapshot_commit if◌then◌else◌
check_snapshot_link-IsCommit raw out passed = ground arith

relative_link-IsCommit :
    (o : Fallible String) (out : String)
    → on_fail o err check_snapshot_link ≡ ok out
    → is_commit (snapshot_commit out) ≡ true
unfolding on_fail
relative_link-IsCommit (err e) out passed = absurd (cc)
relative_link-IsCommit (ok raw) out passed = check_snapshot_link-IsCommit raw out passed

-- A link that `normalizeSnapshotLink` accepts and that is not empty names a full commit identity:
-- `snapshotCommit` of the accepted text is one.
pub normalize_snapshot_link-IsCommit :
    (t : Target) (link out : String)
    → normalize_snapshot_link t link ≡ ok out
    → (link == "") ≡ false
    → is_commit (snapshot_commit out) ≡ true
unfolding normalize_snapshot_link if◌then◌else◌
normalize_snapshot_link-IsCommit t link out passed linked = elim (Bool-cases (is_abs link)) [
  | inl absolute ↦ relative_link-IsCommit (rel t.dir link) out (rw (linked, absolute) at passed)
  | inr relative ↦ check_snapshot_link-IsCommit link out (rw (linked, relative) at passed)
]
