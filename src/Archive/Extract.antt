-- ===== src/Archive/Extract.antt =====
-- `Extract` of internal/infrastructure/archive/extract.go. Errors do not quote the names in their texts.
use Prim.Native.Char.{code}
use config_sync_nginx.Base.{
  ℕ, suc, ◌+◌, ◌-◌, String, Bool, true, false, not, ◌&&◌, ◌||◌, ◌==◌, ◌<>◌, List, [], ◌∷◌, Error,
  other, Fallible, ok, err, ◌>>◌, fail_if, any, if◌then◌else◌, nat_eq, leb, ltb,
}
use config_sync_nginx.Base.Chain.{on_ok}
use config_sync_nginx.Base.Int.{ℤ, is_negative, is_below, to_nat}
use config_sync_nginx.Base.Text.{codes, contains_code}
use config_sync_nginx.Base.FilePath.{split_path, is_abs}
use config_sync_nginx.Snapshot.Load.{valid_path}

-- `Typeflag`, as far as it is told apart.
pub data Typeflag : Type 0 where
  type_x_global_header type_x_header type_dir type_reg type_reg_a type_prohibited : Typeflag

-- `tar.Header`.
pub record Header : Type 0 where
  pub name : String
  pub typeflag : Typeflag
  pub size : ℤ

-- What `Next` gives; the end of the list is `io.EOF`.
pub data Item : Type 0 where
  entry : Header → Item
  unreadable : Error → Item

-- The writing of a file succeeds, fails before the file is there, or fails behind a part of it.
pub data Writing : Type 0 where
  written : Writing
  not_created : Error → Writing
  cut_off : ℕ → Error → Writing

-- What the system answers, by the name of the file or directory.
pub record Disk : Type 0 where
  pub ensure_dirs : String → Fallible (Unit {0})
  pub write_file : String → Writing

-- What is made in the destination: directories by their paths, and files with their sizes.
pub record Dest : Type 0 where
  pub dirs : List String
  pub files : List (String × ℕ)

abbrev pub is_extended : Typeflag → Bool
is_extended type_x_global_header = true
is_extended type_x_header = true
is_extended _ = false

abbrev pub is_dir : Typeflag → Bool
is_dir type_dir = true
is_dir _ = false

-- `strings.TrimSuffix(name, "/")`.
unfoldable pub trim_end_slash : String → String
trim_end_slash String.[] = String.[]
trim_end_slash (String.◌∷◌ c String.[]) =
    if nat_eq (code c) b'/' then String.[] else String.◌∷◌ c String.[]
trim_end_slash (String.◌∷◌ c (String.◌∷◌ d s)) = String.◌∷◌ c (trim_end_slash (String.◌∷◌ d s))

-- The name without any `./` in front.
unfoldable pub trim_dots : String → String
trim_dots String.[] = String.[]
trim_dots (String.◌∷◌ c String.[]) = String.◌∷◌ c String.[]
trim_dots (String.◌∷◌ c (String.◌∷◌ d s)) =
    let rest = trim_dots s in
    if nat_eq (code c) b'.' && nat_eq (code d) b'/' then rest else String.◌∷◌ c (String.◌∷◌ d s)

unfoldable pub entry_name : Header → String
unfolding trim_end_slash trim_dots
entry_name h = trim_dots (trim_end_slash h.name)

-- Whether a path must not be written.
unfoldable pub is_unsafe : String → Bool
unfolding valid_path contains_code is_abs
is_unsafe name =
    not (valid_path name)
    || any (λ c. contains_code c (codes name)) (92 ∷ 0 ∷ 13 ∷ 10 ∷ [])
    || is_abs name

unfoldable pub is_git : String → Bool
unfolding split_path
is_git name = any (λ p. p == ".git") (split_path name)

-- The tests of an entry, behind `total` bytes and `files` entries.
unfoldable pub check_entry : ℕ → ℕ → ℕ → ℕ → String → Header → Fallible (Unit {0})
unfolding is_unsafe is_git
check_entry max_bytes max_files total files name h = do
  fail_if (is_unsafe name) (other ("unsafe archive path " <> h.name))
  fail_if (is_git name) (other "archive includes .git")
  fail_if
      (ltb max_files (suc files) || is_negative h.size || ltb (max_bytes - total) (to_nat h.size))
      (other "archive limit exceeded")

-- `filepath.Dir` of a valid path.
unfoldable pub parent_loop : String → List String → String
parent_loop dir [] = dir
parent_loop dir (s ∷ []) = dir
parent_loop dir (s ∷ t ∷ ss) = parent_loop (if dir == "." then s else dir <> "/" <> s) (t ∷ ss)

unfoldable pub parent : String → String
unfolding parent_loop split_path
parent name = parent_loop "." (split_path name)

-- `EnsureDirs`, with what it makes.
unfoldable pub make_dirs : Disk → String → Dest → Fallible (Unit {0}) × Dest
unfolding on_ok
make_dirs disk name dest =
    on_ok (disk.ensure_dirs name) dest λ made. (ok tt, record dest { dirs = name ∷ dest.dirs })

-- A file of the size, or the part of it that was written; the reader gives no more than the size.
unfoldable pub write_file : Writing → String → ℕ → Dest → Fallible (Unit {0}) × Dest
write_file written name size dest = (ok tt, record dest { files = (name, size) ∷ dest.files })
write_file (not_created e) name size dest = (err e, dest)
write_file (cut_off n e) name size dest =
    (err e, record dest { files = (name, if leb n size then n else size) ∷ dest.files })

unfoldable pub make_file : Disk → String → ℕ → Dest → Fallible (Unit {0}) × Dest
unfolding on_ok make_dirs parent write_file
make_file disk name size dest =
    let made = make_dirs disk (parent name) dest in
    on_ok made.0 made.1 λ u. write_file (disk.write_file name) name size made.1

-- The `switch` on the type.
unfoldable pub make_entry : Disk → Typeflag → String → ℕ → Dest → Fallible (Unit {0}) × Dest
unfolding make_dirs make_file
make_entry disk type_dir name size dest = make_dirs disk name dest
make_entry disk type_reg name size dest = make_file disk name size dest
make_entry disk type_reg_a name size dest = make_file disk name size dest
make_entry disk type_x_global_header name size dest = (err (other "prohibited type"), dest)
make_entry disk type_x_header name size dest = (err (other "prohibited type"), dest)
make_entry disk type_prohibited name size dest = (err (other "prohibited type"), dest)

-- Whether an entry is passed over.
unfoldable pub is_skipped : Header → Bool
unfolding entry_name
is_skipped h = is_extended h.typeflag || (entry_name h == "." && is_dir h.typeflag)

-- The loop.
unfoldable pub extract_loop : Disk → ℕ → ℕ → ℕ → ℕ → List Item → Dest → Fallible (Unit {0}) × Dest
unfolding on_ok
extract_loop disk max_bytes max_files total files [] dest = (ok tt, dest)
extract_loop disk max_bytes max_files total files (unreadable e ∷ items) dest = (err e, dest)
extract_loop disk max_bytes max_files total files (entry h ∷ items) dest = elim (is_skipped h) [
  | true ↦ extract_loop disk max_bytes max_files total files items dest
  | false ↦ on_ok (check_entry max_bytes max_files total files (entry_name h) h) dest λ u.
      let made = make_entry disk h.typeflag (entry_name h) (to_nat h.size) dest in
      on_ok made.0 made.1
        λ v. extract_loop disk max_bytes max_files (total + to_nat h.size) (suc files) items made.1
]

abbrev pub empty_dest : Dest
empty_dest = record { dirs = []; files = [] }

-- `Extract` into an empty destination.
unfoldable pub extract : Disk → ℤ → ℤ → List Item → Fallible (Unit {0}) × Dest
unfolding extract_loop
extract disk max_bytes max_files items =
    if is_below 1 max_bytes || is_below 1 max_files
    then (err (other "invalid extraction limits"), empty_dest)
    else extract_loop disk (to_nat max_bytes) (to_nat max_files) 0 0 items empty_dest
