-- ===== src/Examples/Disks.antt =====
-- A file system in memory, for examples: the texts of the files, and the names in each folder.
use aline_engine.Base.{
  ◌≡◌, ◌≢◌, ◌↔◌, refl, true, false, Option, none, some, List, [], ◌∷◌, arith, if◌then◌else◌,
}
use aline_engine.Base.Text.{Text, codes, text_eq_iff}
use aline_engine.Storage.Files.{path_eq}
use aline_engine.Storage.Os.{Os, Fallible, ok, failed, Stat, found, not_exist, IsLawful}
use aline_engine.Utils.Paths.{FilePath}

pub record Disk : Type 0 where
  pub texts : FilePath → Option Text
  pub names : FilePath → Option (List Text)

abbrev pub stat_of : Option Text → Option (List Text) → Stat
stat_of (some t) names = found
stat_of none (some names) = found
stat_of none none = not_exist

abbrev pub or_failed : {A : Type 0} → Option A → Fallible A
or_failed none = failed (codes "no such file")
or_failed (some a) = ok a

abbrev pub write : FilePath → Option Text → Disk → Disk
write p t d = record d { texts = λ q. if path_eq p q then t else d.texts q }

abbrev pub memory : Os
memory = record {
  Files = Disk;
  stat = λ p d. stat_of (d.texts p) (d.names p);
  read_file = λ p d. or_failed (d.texts p);
  read_dir = λ p d. or_failed (d.names p);
  walk = λ p d. [];
  create_time = λ p d. 0;
  mkdir_all = λ p d. (none, d);
  write_file = λ p t d. (none, write p (some t) d);
  remove = λ p d. (none, write p none d);
  rename = λ p q d. (some (codes "no renaming"), d);
}

pub path_eq_iff : (p q : FilePath) → (path_eq p q ≡ true) ↔ (p ≡ q)
unfolding path_eq
path_eq_iff [] [] = ground arith
path_eq_iff [] (b ∷ q) = ground arith
path_eq_iff (a ∷ p) [] = ground arith
path_eq_iff (a ∷ p) (b ∷ q) = ground (arith, text_eq_iff a b, path_eq_iff p q)

other_path : (p q : FilePath) → p ≢ q → path_eq p q ≡ false
other_path p q h = ground (arith, path_eq_iff p q)

readable :
    (o : Option Text) (n : Option (List Text)) (t : Text) → or_failed o ≡ ok t → stat_of o n ≡ found
readable none n t h = absurd (ground arith)
readable (some x) n t h = refl

pub memory-IsLawful : IsLawful memory
memory-IsLawful = record {
  stat-read_file = λ p d t h. readable (d.texts p) (d.names p) t h;
  read_file-write_file_self = λ p t d h. rw ((path_eq_iff p p).1 refl) refl;
  read_file-write_file_ne = λ p q t d h. rw (other_path p q h) refl;
  read_file-mkdir_all = λ p q d. refl;
  read_file-remove_self = λ p d h. rw ((path_eq_iff p p).1 refl) refl;
  read_file-remove_ne = λ p q d h. rw (other_path p q h) refl;
}
