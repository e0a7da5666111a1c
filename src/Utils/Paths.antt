-- ===== src/Utils/Paths.antt =====
-- What the program uses of Go's package `filepath`. An absolute path that is clean is the list of its
-- elements.
pub mod Laws
use aline_engine.Base.{
  ℕ, ◌+◌, Bool, true, false, ◌||◌, Option, none, some, List, [], ◌∷◌, ◌++◌, length, drop, init,
  last?, if◌then◌else◌,
}
use aline_engine.Base.Text.{Text, codes, text_eq, has_prefix}
use aline_engine.Utils.Strings.{split}

abbrev pub FilePath : Type 0
FilePath = List Text

-- What `filepath.Clean` does with one element behind a clean path.
unfoldable pub enter : FilePath → Text → FilePath
enter p e =
    if text_eq e [] || text_eq e (codes ".")
    then p
    else if text_eq e (codes "..")
    then init p
    else p ++ (e ∷ [])

unfoldable pub enter_all : FilePath → List Text → FilePath
unfolding enter
enter_all p [] = p
enter_all p (e ∷ es) = enter_all (enter p e) es

-- `filepath.Join`, whose elements can hold separators.
unfoldable pub join : FilePath → List Text → FilePath
unfolding enter_all
join p [] = p
join p (e ∷ es) = join (enter_all p (split b'/' e)) es

-- `filepath.Dir`
abbrev pub dir : FilePath → FilePath
dir p = init p

-- `filepath.Base`, of a path that is not the root.
abbrev pub base : FilePath → Text
base p = elim (last? p) [ none ↦ codes "/" | some e ↦ e ]

-- The path as a string.
abbrev pub below : FilePath → Text
below [] = []
below (e ∷ p) = b'/' ∷ (e ++ below p)

unfoldable pub render : FilePath → Text
render [] = codes "/"
render (e ∷ p) = below (e ∷ p)
