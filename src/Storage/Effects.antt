-- ===== src/Storage/Effects.antt =====
-- What the functions of job/util.go on files change of what can be read, by the laws of the
-- operating system.
use aline_engine.Base.{
  ◌≡◌, ◌≢◌, refl, ◌∙◌, Bool, true, false, Option, none, some, arith, if◌then◌else◌, Bool-cases, inl,
  inr,
}
use aline_engine.Base.Text.{Text}
use aline_engine.Storage.Files.{
  is_file_exist, create_dir_if_not_exist, save_string_to_file, read_string_from_file, delete_file,
  unless_error,
}
use aline_engine.Storage.Os.{Os, Fallible, ok, failed, IsLawful, value}
use aline_engine.Utils.Paths.{FilePath, dir}

module _ (os : Os) (law : IsLawful os) where
  exists_readable :
      (p : FilePath) (s : os.Files) (t : Text)
      → os.read_file p s ≡ ok t
      → is_file_exist os p s ≡ true
  unfolding is_file_exist
  exists_readable p s t h = rw (is_file_exist, law.stat-read_file p s t h) refl

  guarded :
      (b : Bool) (r : Fallible Text) (e : Text)
      → ((t : Text) → r ≡ ok t → b ≡ true)
      → value (if b then r else failed e) ≡ value r
  guarded true r e h = refl
  guarded false (ok t) e h = absurd (ground (arith, h t refl))
  guarded false (failed x) e h = refl

  -- Reading through the test whether a file exists reads the file.
  pub value-read_string_from_file :
      (p : FilePath) (s : os.Files)
      → value (read_string_from_file os p s) ≡ value (os.read_file p s)
  unfolding read_string_from_file
  value-read_string_from_file p s = guarded _ (os.read_file p s) _ (exists_readable p s)

  -- The state after a new directory, if one is made.
  value-create_dir :
      (p q : FilePath) (s : os.Files)
      → value (os.read_file q (create_dir_if_not_exist os p s).1) ≡ value (os.read_file q s)
  unfolding create_dir_if_not_exist
  value-create_dir p q s = elim (Bool-cases (is_file_exist os p s)) [
    | inl e ↦ rw e refl
    | inr e ↦ rw e (law.read_file-mkdir_all p q s)
  ]

  save_self :
      (p : FilePath) (t : Text) (r : Option Text × os.Files)
      → (unless_error os r (os.write_file p t)).0 ≡ none
      → os.read_file p (unless_error os r (os.write_file p t)).1 ≡ ok t
  save_self p t (none, s) h = law.read_file-write_file_self p t s h
  save_self p t (some e, s) h = absurd (ground arith)

  save_ne :
      (p q : FilePath) (t : Text) (r : Option Text × os.Files)
      → p ≢ q
      → value (os.read_file q (unless_error os r (os.write_file p t)).1)
        ≡ value (os.read_file q r.1)
  save_ne p q t (none, s) h = law.read_file-write_file_ne p q t s h
  save_ne p q t (some e, s) h = refl

  pub read-save_self :
      (p : FilePath) (t : Text) (s : os.Files)
      → (save_string_to_file os p t s).0 ≡ none
      → os.read_file p (save_string_to_file os p t s).1 ≡ ok t
  unfolding save_string_to_file
  read-save_self p t s h = save_self p t (create_dir_if_not_exist os (dir p) s) h

  pub read-save_ne :
      (p q : FilePath) (t : Text) (s : os.Files)
      → p ≢ q
      → value (os.read_file q (save_string_to_file os p t s).1) ≡ value (os.read_file q s)
  unfolding save_string_to_file
  read-save_ne p q t s h =
      save_ne p q t (create_dir_if_not_exist os (dir p) s) h ∙ value-create_dir (dir p) q s

  pub read-delete_self :
      (p : FilePath) (s : os.Files)
      → (delete_file os p s).0 ≡ none
      → value (os.read_file p (delete_file os p s).1) ≡ none
  unfolding delete_file
  read-delete_self p s = elim (Bool-cases (is_file_exist os p s)) [
    | inl e ↦ rw e (law.read_file-remove_self p s)
    | inr e ↦ rw e (λ h. absurd (ground arith))
  ]

  pub read-delete_ne :
      (p q : FilePath) (s : os.Files)
      → p ≢ q
      → value (os.read_file q (delete_file os p s).1) ≡ value (os.read_file q s)
  unfolding delete_file
  read-delete_ne p q s h = elim (Bool-cases (is_file_exist os p s)) [
    | inl e ↦ rw e (law.read_file-remove_ne p q s h)
    | inr e ↦ rw e refl
  ]
