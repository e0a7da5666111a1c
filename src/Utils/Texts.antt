-- ===== src/Utils/Texts.antt =====
-- What the actions that check contracts use of Go's packages `strings` and `path`, over bytes. White
-- space is that of ASCII.
use aline_engine.Base.{
  ℕ, zero, suc, ◌-◌, Bool, true, false, Option, none, some, List, [], ◌∷◌, ◌++◌, length, drop, ◌==◌,
  if◌then◌else◌, last?,
}
use aline_engine.Base.Text.{Text, has_prefix}
use aline_engine.Utils.Paths.{FilePath, join}
use aline_engine.Utils.Strings.{split, trim_suffix}
use aline_engine.Utils.Template.{is_space, replace_from}

abbrev pub with_byte : ℕ → List Text → List Text
with_byte b [] = (b ∷ []) ∷ []
with_byte b (s ∷ r) = (b ∷ s) ∷ r

-- `strings.Split(s, sep)` for `sep` not empty; the first `skip` bytes are those of a separator.
unfoldable pub split_from : ℕ → Text → Text → List Text
unfolding has_prefix
split_from skip sep [] = [] ∷ []
split_from (suc skip) sep (b ∷ s) = split_from skip sep s
split_from zero sep (b ∷ s) = elim (has_prefix (b ∷ s) sep) [
  | true ↦ [] ∷ split_from (length sep - 1) sep s
  | false ↦ with_byte b (split_from zero sep s)
]

abbrev pub split_on : Text → Text → List Text
split_on sep s = split_from 0 sep s

-- `strings.Index(s, t)`; `none` is -1.
unfoldable pub index_of : Text → Text → Option ℕ
unfolding has_prefix
index_of t [] = if has_prefix [] t then some 0 else none
index_of t (b ∷ s) =
    let later = index_of t s in
    if has_prefix (b ∷ s) t then some 0 else elim later [ none ↦ none | some i ↦ some (suc i) ]

-- `strings.Contains(s, t)`
abbrev pub has_text : Text → Text → Bool
has_text s t = elim (index_of t s) [ none ↦ false | some i ↦ true ]

unfoldable pub trim_left : Text → Text
trim_left [] = []
trim_left (b ∷ s) = let rest = trim_left s in if is_space b then rest else b ∷ s

unfoldable pub trim_end : Text → Text
trim_end [] = []
trim_end (b ∷ s) =
    let rest = trim_end s in
    elim rest [ [] ↦ if is_space b then [] else b ∷ [] | r ∷ rs ↦ b ∷ r ∷ rs ]

-- `strings.TrimSpace`
abbrev pub trim_space : Text → Text
trim_space s = trim_end (trim_left s)

-- `strings.Replace(s, old, new, 1)`
unfoldable pub replace_first : Text → Text → Text → Text
unfolding has_prefix
replace_first old new [] = if has_prefix [] old then new else []
replace_first old new (b ∷ s) =
    let rest = replace_first old new s in
    if has_prefix (b ∷ s) old then new ++ drop (length old) (b ∷ s) else b ∷ rest

-- `strings.ReplaceAll(s, old, new)` for `old` not empty.
abbrev pub replace_all : Text → Text → Text → Text
replace_all s old new = replace_from 0 old new s

abbrev put_word : Text → List Text → List Text
put_word [] ws = ws
put_word (b ∷ w) ws = (b ∷ w) ∷ ws

-- `strings.Fields`, with the word that is being read.
unfoldable pub fields_from : Text → Text → List Text
fields_from w [] = put_word w []
fields_from w (b ∷ s) = elim (is_space b) [
  | true ↦ put_word w (fields_from [] s)
  | false ↦ fields_from (w ++ (b ∷ [])) s
]

abbrev pub fields : Text → List Text
fields s = fields_from [] s

-- The path that a text names.
abbrev pub path_of : Text → FilePath
path_of t = join [] (t ∷ [])

-- The last element of a path, as `path.Base(path.Split(path))` gives it for a path of a file.
unfoldable pub file_name : Text → Text
unfolding split
file_name path = elim (last? (split b'/' path)) [ none ↦ [] | some e ↦ e ]

-- `path.Ext` of an element: from its last point on.
unfoldable pub extension : Text → Text
extension [] = []
extension (b ∷ s) =
    let rest = extension s in elim rest [ [] ↦ if b == b'.' then b ∷ s else [] | r ∷ rs ↦ r ∷ rs ]

-- utils/file_utils.go `GetFilenameWithSuffixAndFilenameOnly`
unfoldable pub filename_only : Text → Text
unfolding file_name extension trim_suffix
filename_only path = trim_suffix (file_name path) (extension (file_name path))
