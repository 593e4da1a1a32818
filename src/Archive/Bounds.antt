-- ===== src/Archive/Bounds.antt =====
-- What `Extract` of internal/infrastructure/archive/extract.go can write.
use config_sync_nginx.Base.{
  ℕ, suc, ◌+◌, ◌-◌, ◌≤◌, String, false, ◌||◌, ◌≡◌, refl, List, [], ◌∷◌, ok, inl, inr, arith, All,
  length, Bool-cases, leb, ltb, if◌then◌else◌,
}
use config_sync_nginx.Base.Chain.{on_ok-holds, fail_if-ok}
use config_sync_nginx.Base.Int.{ℤ, is_negative, is_below, to_nat}
use config_sync_nginx.Archive.Extract.{
  Typeflag, type_x_global_header, type_x_header, type_dir, type_reg, type_reg_a, type_prohibited,
  Header, Item, entry, unreadable, Writing, written, not_created, cut_off, Disk, Dest, entry_name,
  is_unsafe, is_git, check_entry, parent, make_dirs, write_file, make_file, make_entry, is_skipped,
  extract_loop, extract, empty_dest,
}

-- The bytes of the files.
unfoldable pub bytes : List (String × ℕ) → ℕ
bytes [] = 0
bytes ((name, size) ∷ files) = size + bytes files

-- The path stays in the destination and is no part of a repository.
abbrev pub IsSafe : String × ℕ → Type 0
IsSafe file = (is_unsafe file.0 ≡ false) × (is_git file.0 ≡ false)

-- As many files and bytes as are allowed at most, all of them at safe paths.
abbrev pub IsBounded : ℕ → ℕ → List (String × ℕ) → Type 0
IsBounded max_bytes max_files files =
    (length files ≤ max_files) × (bytes files ≤ max_bytes) × All IsSafe files

module _ (disk : Disk) (Q : List (String × ℕ) → Type 0) (name : String) (size : ℕ) (dest : Dest)
    (none_made : Q dest.files) (one_made : (k : ℕ) → k ≤ size → Q ((name, k) ∷ dest.files)) where
  write_file-files :
      (w : Writing) (d : Dest) → d.files ≡ dest.files → Q (write_file w name size d).1.files
  unfolding write_file
  write_file-files written d same = rw same (one_made size (omega arith))
  write_file-files (not_created e) d same = rw same none_made
  write_file-files (cut_off n e) d same =
      rw same (one_made (if leb n size then n else size) (ground arith))

  make_dirs-files : (at : String) → (make_dirs disk at dest).1.files ≡ dest.files
  unfolding make_dirs
  make_dirs-files at =
      on_ok-holds (λ d. d.files ≡ dest.files) (disk.ensure_dirs at) dest _ refl λ u made. refl

  make_file-files : Q (make_file disk name size dest).1.files
  unfolding make_file
  make_file-files =
      let same = make_dirs-files (parent name) in
      let made = make_dirs disk (parent name) dest in
      on_ok-holds (λ d. Q d.files) made.0 made.1 _ (rw same none_made)
        λ u there. write_file-files (disk.write_file name) made.1 same

  make_entry-files : (t : Typeflag) → Q (make_entry disk t name size dest).1.files
  unfolding make_entry
  make_entry-files type_dir = rw (make_dirs-files name) none_made
  make_entry-files type_reg = make_file-files
  make_entry-files type_reg_a = make_file-files
  make_entry-files type_x_global_header = none_made
  make_entry-files type_x_header = none_made
  make_entry-files type_prohibited = none_made

module _ (disk : Disk) (max_bytes max_files : ℕ) where
  -- What holds in the loop, behind `total` bytes and `count` entries.
  abbrev InLoop : ℕ → ℕ → List (String × ℕ) → Type 0
  InLoop total count files =
      (length files ≤ count)
      × (bytes files ≤ total)
      × (count ≤ max_files)
      × (total ≤ max_bytes)
      × All IsSafe files

  InLoop-IsBounded :
      (total count : ℕ) (files : List (String × ℕ))
      → InLoop total count files
      → IsBounded max_bytes max_files files
  InLoop-IsBounded total count files (few, small, count_ok, total_ok, safe) =
      (omega arith, omega arith, safe)

  check_entry-InLoop :
      (total count : ℕ) (h : Header) (dest : Dest)
      → InLoop total count dest.files
      → check_entry max_bytes max_files total count (entry_name h) h ≡ ok tt
      → InLoop
          (total + to_nat h.size)
          (suc count)
          (make_entry disk h.typeflag (entry_name h) (to_nat h.size) dest).1.files
  unfolding check_entry bytes
  check_entry-InLoop total count h dest (few, small, count_ok, total_ok, safe) passed =
      let name = entry_name h in
      let size = to_nat h.size in
      let (path_ok, behind) = fail_if-ok (is_unsafe name) _ _ passed in
      let (git_ok, behind₁) = fail_if-ok (is_git name) _ _ behind in
      let limits : (ltb max_files (suc count) || is_negative h.size || ltb (max_bytes - total) size)
          ≡ false =
        ground arith in
      let count_ok₁ : suc count ≤ max_files = ground arith in
      let total_ok₁ : total + size ≤ max_bytes = ground arith in
      make_entry-files disk (InLoop (total + size) (suc count)) name size dest
        (omega arith, omega arith, count_ok₁, total_ok₁, safe)
        (λ k fits. (omega arith, omega arith, count_ok₁, total_ok₁, ((path_ok, git_ok), safe)))
        h.typeflag

  extract_loop-IsBounded :
      (total count : ℕ) (items : List Item) (dest : Dest)
      → InLoop total count dest.files
      → IsBounded max_bytes max_files
          (extract_loop disk max_bytes max_files total count items dest).1.files
  unfolding extract_loop
  extract_loop-IsBounded total count [] dest inv = InLoop-IsBounded total count dest.files inv
  extract_loop-IsBounded total count (unreadable e ∷ items) dest inv =
      InLoop-IsBounded total count dest.files inv
  extract_loop-IsBounded total count (entry h ∷ items) dest inv = elim (Bool-cases (is_skipped h)) [
    | inl skipped ↦ rw (skipped, extract_loop) (extract_loop-IsBounded total count items dest inv)
    | inr taken ↦
        let name = entry_name h in
        let size = to_nat h.size in
        let made = make_entry disk h.typeflag name size dest in
        rw (taken, extract_loop)
          (on_ok-holds (λ d. IsBounded max_bytes max_files d.files)
            (check_entry max_bytes max_files total count name h) dest _
            (InLoop-IsBounded total count dest.files inv)
            λ u passed.
              let next = check_entry-InLoop total count h dest inv passed in
              on_ok-holds (λ d. IsBounded max_bytes max_files d.files) made.0 made.1 _
                (InLoop-IsBounded (total + size) (suc count) made.1.files next)
                λ v fine. extract_loop-IsBounded (total + size) (suc count) items made.1 next)
  ]

-- Whatever the archive holds and the system answers, also where it fails half-way, `Extract` makes no
-- more files than are allowed, with no more bytes than are allowed, each at a valid path below
-- the destination that is no part of a `.git` directory.
pub extract-IsBounded :
    (disk : Disk) (max_bytes max_files : ℤ) (items : List Item)
    → IsBounded
        (to_nat max_bytes)
        (to_nat max_files)
        (extract disk max_bytes max_files items).1.files
unfolding extract bytes
extract-IsBounded disk max_bytes max_files items =
    elim (Bool-cases (is_below 1 max_bytes || is_below 1 max_files)) [
      | inl bad ↦ rw bad (omega arith, omega arith, tt)
      | inr good ↦ rw good (
          extract_loop-IsBounded disk (to_nat max_bytes) (to_nat max_files) 0 0 items empty_dest
            (omega arith, omega arith, omega arith, omega arith, tt))
    ]
