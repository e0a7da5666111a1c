-- ===== src/Checks/Walk.antt =====
-- utils/file_utils.go: the files below a folder. What `os.ReadDir` finds there, folder by folder, is
-- a tree; a folder that cannot be read has no entries.
use mathlib.Core.List.{append_assoc, append-nil}
use aline_engine.Base.{
  ◌≡◌, refl, sym, Bool, false, Option, none, some, List, [], ◌∷◌, ◌++◌, arith, length, drop, zero,
  if◌then◌else◌, ◌==◌,
}
use aline_engine.Base.Text.{Text, codes, text_eq}
use aline_engine.Utils.Texts.{extension, index_of}
use aline_engine.Storage.Os.{Fallible, ok, failed}

pub data Entries : Type 0 where
  end : Entries
  file : Text → Entries → Entries
  folder : Text → Entries → Entries → Entries

abbrev pub current_path : Text → Text → Text
current_path workdir name = workdir ++ (b'/' ∷ name)

-- `filepath.Ext` of a path whose last element is `name`.
unfoldable pub get_suffix_files : Text → Text → Entries → List Text → List Text
unfolding extension text_eq
get_suffix_files workdir suffix end l = l
get_suffix_files workdir suffix (folder name inner es) l =
    get_suffix_files workdir suffix es (get_suffix_files (current_path workdir name) suffix inner l)
get_suffix_files workdir suffix (file name es) l =
    get_suffix_files workdir suffix es
      (if text_eq (extension name) suffix then l ++ (current_path workdir name ∷ []) else l)

unfoldable pub get_same_file_name_files : Text → Text → Entries → List Text → List Text
unfolding text_eq
get_same_file_name_files workdir file_name end l = l
get_same_file_name_files workdir file_name (folder name inner es) l =
    get_same_file_name_files workdir file_name es
      (get_same_file_name_files (current_path workdir name) file_name inner l)
get_same_file_name_files workdir file_name (file name es) l =
    get_same_file_name_files workdir file_name es
      (if text_eq name file_name then l ++ (current_path workdir name ∷ []) else l)

-- `filepath.Match`; `none` is its error.
module _ (matches : Text → Text → Option Bool) where
  abbrev is_match : Option Bool → Bool
  is_match none = false
  is_match (some b) = b

  -- The loop over the patterns: the list and the flag, which is that of the last pattern.
  pub match_patterns : Text → List Text → Bool → List Text → List Text × Bool
  match_patterns path [] flag l = (l, flag)
  match_patterns path (p ∷ ps) flag l =
      let matched = is_match (matches p path) in
      match_patterns path ps matched (if matched then l ++ (path ∷ []) else l)

  -- The flag lives through the loop over the entries of one folder.
  pub get_files_from : Text → List Text → Entries → Bool → List Text → List Text
  unfolding match_patterns
  get_files_from workdir fuzzy end flag l = l
  get_files_from workdir fuzzy (file name es) flag l =
      let found = match_patterns (current_path workdir name) fuzzy flag l in
      get_files_from workdir fuzzy es found.1 found.0
  get_files_from workdir fuzzy (folder name inner es) flag l =
      let found = match_patterns (current_path workdir name) fuzzy flag l in
      let below = get_files_from (current_path workdir name) fuzzy inner false found.0 in
      get_files_from workdir fuzzy es found.1 (if found.1 then found.0 else below)

  unfoldable pub get_files : Text → List Text → Entries → List Text → List Text
  unfolding get_files_from
  get_files workdir fuzzy es l = get_files_from workdir fuzzy es false l

-- `none` is the panic on the path itself.
abbrev pub relative_path : Text → Option Text
relative_path [] = none
relative_path (c ∷ s) = if c == b'/' then some s else some (c ∷ s)

abbrev returned : Option Text → Option (Fallible Text)
returned none = none
returned (some t) = some (ok t)

unfoldable pub get_redundant_path : Text → Text → Option (Fallible Text)
unfolding index_of
get_redundant_path short long = elim (index_of short long) [
  | some zero ↦ returned (relative_path (drop (length short) long))
  | _ ↦ some (failed (codes "path does not contain"))
]

-- Every file below a folder, with its name, in the order of the walk.
abbrev pub all_files_below : Text → Entries → List (Text × Text)
all_files_below workdir end = []
all_files_below workdir (folder name inner es) =
    all_files_below (current_path workdir name) inner ++ all_files_below workdir es
all_files_below workdir (file name es) =
    (name, current_path workdir name) ∷ all_files_below workdir es

-- The paths of the files whose name passes a test.
abbrev pub select : (Text → Bool) → List (Text × Text) → List Text
select test [] = []
select test ((name, path) ∷ fs) =
    let rest = select test fs in if test name then path ∷ rest else rest

select-append :
    (test : Text → Bool) (fs gs : List (Text × Text))
    → select test (fs ++ gs) ≡ select test fs ++ select test gs
select-append test [] gs = refl
select-append test ((name, path) ∷ fs) gs = ground (arith, select-append test fs gs)

-- The files with a suffix are, in the order of the walk, those of all files whose extension is the suffix;
-- they stand behind the paths that are given.
pub get_suffix_files_lem :
    (workdir suffix : Text) (es : Entries) (l : List Text)
    → get_suffix_files workdir suffix es l
      ≡ l ++ select (λ name. text_eq (extension name) suffix) (all_files_below workdir es)
unfolding get_suffix_files
get_suffix_files_lem workdir suffix end l = sym (append-nil l)
get_suffix_files_lem workdir suffix (folder name inner es) l =
    let below =
      select (λ n. text_eq (extension n) suffix)
        (all_files_below (current_path workdir name) inner) in
    rw
      (
        get_suffix_files_lem (current_path workdir name) suffix inner l,
        get_suffix_files_lem workdir suffix es (l ++ below),
        select-append (λ n. text_eq (extension n) suffix)
            (all_files_below (current_path workdir name) inner) (all_files_below workdir es),
      )
      (append_assoc l below _)
get_suffix_files_lem workdir suffix (file name es) l = ground (
  arith,
  get_suffix_files_lem workdir suffix es l,
  get_suffix_files_lem workdir suffix es (l ++ (current_path workdir name ∷ [])),
  append_assoc l (current_path workdir name ∷ [])
      (select (λ n. text_eq (extension n) suffix) (all_files_below workdir es)),
)

-- The files with a name are those of all files that have it.
pub get_same_file_name_files_lem :
    (workdir file_name : Text) (es : Entries) (l : List Text)
    → get_same_file_name_files workdir file_name es l
      ≡ l ++ select (λ name. text_eq name file_name) (all_files_below workdir es)
unfolding get_same_file_name_files
get_same_file_name_files_lem workdir file_name end l = sym (append-nil l)
get_same_file_name_files_lem workdir file_name (folder name inner es) l =
    let below =
      select (λ n. text_eq n file_name) (all_files_below (current_path workdir name) inner) in
    rw
      (
        get_same_file_name_files_lem (current_path workdir name) file_name inner l,
        get_same_file_name_files_lem workdir file_name es (l ++ below),
        select-append (λ n. text_eq n file_name) (all_files_below (current_path workdir name) inner)
            (all_files_below workdir es),
      )
      (append_assoc l below _)
get_same_file_name_files_lem workdir file_name (file name es) l = ground (
  arith,
  get_same_file_name_files_lem workdir file_name es l,
  get_same_file_name_files_lem workdir file_name es (l ++ (current_path workdir name ∷ [])),
  append_assoc l (current_path workdir name ∷ [])
      (select (λ n. text_eq n file_name) (all_files_below workdir es)),
)
