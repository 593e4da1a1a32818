-- ===== src/Archive/Examples.antt =====
-- An archive with a directory and two files, of which the second is cut off, and what
-- internal/infrastructure/archive/extract.go makes of it.
use config_sync_nginx.Base.{◌==◌, List, [], ◌∷◌, other, ok, if◌then◌else◌}
use config_sync_nginx.Base.Int.{pos}
use config_sync_nginx.Archive.Extract.{
  type_dir, type_reg, Item, entry, written, cut_off, Disk, extract,
}
use config_sync_nginx.Archive.Bounds.{IsBounded, extract-IsBounded}

abbrev small_archive : List Item
small_archive =
    entry (record { name = "./site/"; typeflag = type_dir; size = pos 0 })
    ∷ entry (record { name = "./site/index.html"; typeflag = type_reg; size = pos 12 })
    ∷ entry (record { name = "site/app.js"; typeflag = type_reg; size = pos 30 })
    ∷ []

abbrev full_disk : Disk
full_disk = record {
  ensure_dirs = λ name. ok tt;
  write_file = λ name.
      if name == "site/app.js" then cut_off 7 (other "no space left on device") else written;
}

extract-IsBounded_example :
    IsBounded 50 10 (extract full_disk (pos 50) (pos 10) small_archive).1.files
extract-IsBounded_example = extract-IsBounded full_disk (pos 50) (pos 10) small_archive
