-- ===== src/Snapshot/Exact.antt =====
-- `verifySnapshot` of internal/application/publisher/apply.go accepts exactly the trees that hold the
-- files of the manifest.
use config_sync_nginx.Base.{
  ℕ, suc, ◌+◌, String, true, ◌==◌, ◌≡◌, refl, ap, sym, ◌↔◌, [], ◌∷◌, Option, none, some, ok, err,
  other, subst, ◌<>◌, inl, inr, arith, eq_iff, eq_refl, All, length, nat_eq, is_some, Bool-cases,
  Option-cases,
}
use config_sync_nginx.Base.Chain.{Fallible-cases, >>-ok, fail_if-ok}
use config_sync_nginx.Base.Dict.{Dict, lookup}
use config_sync_nginx.Base.Keys.{has, Distinct, Within, Within-le, Within-onto, lookup-head-apart}
use config_sync_nginx.Base.Int.{ℤ, int_eq, pos, negsuc}
use config_sync_nginx.Snapshot.Types.{File, Manifest, Leaf, regular, irregular, broken, Context}
use config_sync_nginx.Snapshot.Load.{file_eq, hash_file, check_leaf, check_tree, check_snapshot}

-- The leaf is a regular file that is as the files say under its name.
abbrev pub IsListed : Dict File → String → Leaf → Type 0
IsListed files name leaf = (f : File) × (leaf ≡ regular f) × (lookup name files ≡ some f)

-- Every leaf is listed, and everything that is listed is there.
abbrev pub IsExact : Dict File → Dict Leaf → Type 0
IsExact files tree =
    ((name : String) (leaf : Leaf) → lookup name tree ≡ some leaf → IsListed files name leaf)
    × ((name : String) → has name files ≡ true → has name tree ≡ true)

int_eq_sound : (a b : ℤ) → int_eq a b ≡ true → a ≡ b
int_eq_sound (pos a) (pos b) e = ground arith
int_eq_sound (negsuc a) (negsuc b) e = ground arith
int_eq_sound (pos a) (negsuc b) e = absurd (cc)
int_eq_sound (negsuc a) (pos b) e = absurd (cc)

int_eq_refl : (a : ℤ) → int_eq a a ≡ true
int_eq_refl (pos a) = ground arith
int_eq_refl (negsuc a) = ground arith

file_eq_sound : (a b : File) → file_eq a b ≡ true → a ≡ b
file_eq_sound a b e = ground (arith, eq_iff a.sha256 b.sha256, int_eq_sound a.size b.size)

file_eq_refl : (a : File) → file_eq a a ≡ true
file_eq_refl a = ground (arith, eq_refl a.sha256, int_eq_refl a.size)

check_leaf-IsListed :
    (files : Dict File) (name : String) (leaf : Leaf) (found : Option File)
    → lookup name files ≡ found
    → check_leaf name found leaf ≡ ok tt
    → IsListed files name leaf
unfolding check_leaf hash_file
check_leaf-IsListed files name leaf none e passed = absurd (cc)
check_leaf-IsListed files name irregular (some f) e passed = absurd (cc)
check_leaf-IsListed files name (broken x) (some f) e passed = absurd (cc)
check_leaf-IsListed files name (regular g) (some f) e passed = elim (Bool-cases (file_eq f g)) [
  | inl same ↦ (f, ap regular (sym (file_eq_sound f g same)), e)
  | inr apart ↦
      let h : err (other ("snapshot integrity mismatch " <> name)) ≡ ok tt = rw apart at passed in
      absurd (cc)
]

IsListed-check_leaf :
    (files : Dict File) (name : String) (leaf : Leaf)
    → IsListed files name leaf
    → check_leaf name (lookup name files) leaf ≡ ok tt
unfolding check_leaf hash_file
IsListed-check_leaf files name leaf (f, same, found) = rw (found, same, file_eq_refl f)

module _ (ctx : Context) (files : Dict File) where
  check_tree-All :
      (tree : Dict Leaf) (seen n : ℕ)
      → check_tree ctx files tree seen ≡ ok n
      → (n ≡ seen + length tree) × All (λ e. IsListed files e.0 e.1) tree
  unfolding check_tree
  check_tree-All [] seen n passed = (ground arith, tt)
  check_tree-All ((name, leaf) ∷ rest) seen n passed =
      let (reached, behind) = >>-ok (ctx name) _ passed in
      let (leaf_ok, rest_ok) = >>-ok (check_leaf name (lookup name files) leaf) _ behind in
      let (count, listed) = check_tree-All rest (suc seen) n rest_ok in
      (omega (arith, count), (check_leaf-IsListed files name leaf _ refl leaf_ok, listed))

  All-check_tree :
      (tree : Dict Leaf) (seen : ℕ)
      → ((name : String) → ctx name ≡ ok tt)
      → All (λ e. IsListed files e.0 e.1) tree
      → check_tree ctx files tree seen ≡ ok (seen + length tree)
  unfolding check_tree
  All-check_tree [] seen quiet listed = ground arith
  All-check_tree ((name, leaf) ∷ rest) seen quiet (here, listed) =
      rw
        (
          quiet name,
          IsListed-check_leaf files name leaf here,
          All-check_tree rest (suc seen) quiet listed,
        )
        (ground arith)

All-lookup :
    (files : Dict File) (tree : Dict Leaf)
    → All (λ e. IsListed files e.0 e.1) tree
    → (name : String) (leaf : Leaf) → lookup name tree ≡ some leaf
    → IsListed files name leaf
unfolding lookup
All-lookup files [] listed name leaf found = absurd (cc)
All-lookup files ((key, held) ∷ rest) (here, listed) name leaf found =
    elim (Bool-cases (key == name)) [
      | inl same ↦
          let same_key = (eq_iff key name).0 same in
          let held_leaf : some held ≡ some leaf = rw same at found in
          let same_leaf : held ≡ leaf = cc in
          subst (λ l. IsListed files name l) same_leaf
            (subst (λ k. IsListed files k held) same_key here)
      | inr apart ↦ All-lookup files rest listed name leaf (rw apart at found)
    ]

lookup-All :
    (files : Dict File) (tree : Dict Leaf)
    → Distinct tree
    → ((name : String) (leaf : Leaf) → lookup name tree ≡ some leaf → IsListed files name leaf)
    → All (λ e. IsListed files e.0 e.1) tree
unfolding lookup
lookup-All files [] d listed = tt
lookup-All files ((key, held) ∷ rest) d listed = (
  listed key held (rw (eq_refl key) refl),
  lookup-All files rest d.1 (λ name leaf found.
      let apart = lookup-head-apart key name held rest d.0 (rw found refl) in
      listed name leaf (rw apart found)),
)

IsListed-Within :
    (files : Dict File) (tree : Dict Leaf)
    → ((name : String) (leaf : Leaf) → lookup name tree ≡ some leaf → IsListed files name leaf)
    → Within tree files
IsListed-Within files tree listed name there = elim (Option-cases (lookup name tree)) [
  | inl missing ↦ let h : is_some {A = Leaf} none ≡ true = rw missing at there in absurd (cc)
  | inr (leaf, found) ↦ let (f, same, in_files) = listed name leaf found in rw in_files refl
]

nat_eq_sound : (a b : ℕ) → nat_eq a b ≡ true → a ≡ b
nat_eq_sound a b e = ground arith

module _ (ctx : Context) (m : Manifest) (tree : Dict Leaf) (tree_keys : Distinct tree)
    (file_keys : Distinct m.files) where
  accepted-IsExact : check_snapshot ctx m tree ≡ ok m → IsExact m.files tree
  unfolding check_snapshot
  accepted-IsExact passed = elim (Fallible-cases (check_tree ctx m.files tree 0)) [
    | inl (e, failed) ↦ let h : err e ≡ ok m = rw failed at passed in absurd (cc)
    | inr (seen, counted) ↦
        let behind = rw counted at passed in
        let all_seen =
          nat_eq_sound seen (length m.files) (ground (arith, (fail_if-ok _ _ (ok m) behind).0)) in
        let (count, listed) = check_tree-All ctx m.files tree 0 seen counted in
        let in_tree = All-lookup m.files tree listed in
        (
          in_tree,
          λ name there.
              Within-onto tree m.files name tree_keys (IsListed-Within m.files tree in_tree)
                (omega (arith, count, all_seen)) there,
        )
  ]

  IsExact-accepted :
      ((name : String) → ctx name ≡ ok tt) → IsExact m.files tree → check_snapshot ctx m tree ≡ ok m
  unfolding check_snapshot
  IsExact-accepted quiet (listed, whole) =
      let fewer = Within-le tree m.files tree_keys (IsListed-Within m.files tree listed) in
      let more = Within-le m.files tree file_keys whole in
      rw (All-check_tree ctx m.files tree 0 quiet (lookup-All m.files tree tree_keys listed))
        (ground arith)

  -- With a context that does not end, and no name twice in the directory or in the manifest, the walk of
  -- `verifySnapshot` succeeds exactly if every file of the snapshot is a regular one with the digest and
  -- the size of the manifest, and every file of the manifest is there.
  pub check_snapshot-iff-IsExact :
      ((name : String) → ctx name ≡ ok tt)
      → (check_snapshot ctx m tree ≡ ok m) ↔ IsExact m.files tree
  check_snapshot-iff-IsExact quiet = (accepted-IsExact, IsExact-accepted quiet)
