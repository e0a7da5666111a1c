-- ===== src/Examples/Hosts.antt =====
-- A host in memory, whose commands print "done".
use aline_engine.Base.{Option, none, some, List, [], ◌∷◌, true, if◌then◌else◌}
use aline_engine.Base.Text.{Text, codes}
use aline_engine.Checks.Machine.{Machine, Run}
use aline_engine.Checks.Walk.{Entries, end, file}
use aline_engine.Examples.Disks.{Disk, memory}
use aline_engine.Storage.Files.{path_eq}
use aline_engine.Storage.Os.{Fallible, ok}

-- The host finds one file of each name below every folder.
abbrev pub entries_of : List Text → Entries
entries_of [] = end
entries_of (name ∷ names) = file name (entries_of names)

abbrev pub host : List Text → Machine
host names = record {
  os = memory;
  home = ok (codes "root" ∷ []);
  here = [];
  tree = λ p d. entries_of names;
  is_dir = λ p d. ok true;
  run_command = λ commands workdir d. (record { out = codes "done"; error = none }, d);
  stat_error = λ p d. codes "stat: no such file or directory";
  atoi_error = λ t. codes "strconv.Atoi: invalid syntax";
}

-- One file of the folder "c".
abbrev pub disk_with : Text → Text → Disk
disk_with name text = record {
  texts = λ p. if path_eq p (codes "c" ∷ name ∷ []) then some text else none;
  names = λ p. if path_eq p (codes "c" ∷ []) then some (name ∷ []) else none;
}

abbrev pub run_on : (names : List Text) → Disk → Run (host names)
run_on names d = record { files = d; written = [] }

-- The state behind a part of a run.
abbrev pub behind_run :
    {A : Type 0} (names : List Text)
    → Run (host names)
    → Option (Fallible A × Run (host names))
    → Run (host names)
behind_run names r none = r
behind_run names r (some (x, r')) = r'
