-- ===== src/Utils/Template.antt =====
-- utils/template.go `ReplaceWithParam`. Only the first placeholder of the content is looked for; all
-- its occurrences are replaced. `none` is the panic on a placeholder without a name.
use aline_engine.Base.{
  ℕ, zero, suc, ◌-◌, Bool, ◌||◌, Option, none, some, [], ◌∷◌, ◌++◌, length, drop, ◌==◌,
  if◌then◌else◌,
}
use aline_engine.Base.Map.{Map, lookup}
use aline_engine.Base.Text.{Text, codes, has_prefix}

-- `strings.Replace(s, old, new, -1)` for `old` not empty; the first `skip` bytes are already replaced.
pub replace_from : ℕ → Text → Text → Text → Text
replace_from skip old new [] = []
replace_from (suc skip) old new (c ∷ s) = replace_from skip old new s
replace_from zero old new (c ∷ s) =
    let replaced = new ++ replace_from (length old - 1) old new s in
    let kept = c ∷ replace_from zero old new s in if has_prefix (c ∷ s) old then replaced else kept

-- What stands before the first "}}" of a line.
pub until_close : Text → Option Text
until_close [] = none
until_close (c ∷ s) =
    let rest = until_close s in
    if has_prefix (c ∷ s) (codes "}}")
    then some []
    else if c == 10
    then none
    else elim rest [ none ↦ none | some t ↦ some (c ∷ t) ]

abbrev pub or_later : Option Text → Option Text → Option Text
or_later (some t) rest = some t
or_later none rest = rest

-- The inside of the first match of the regular expression.
pub first_match : Text → Option Text
unfolding until_close
first_match [] = none
first_match (c ∷ s) =
    let rest = first_match s in
    if has_prefix (c ∷ s) (codes "${{") then or_later (until_close (drop 2 s)) rest else rest

abbrev pub is_space : ℕ → Bool
is_space c = c == b' ' || (c == 9 || (c == 10 || (c == 11 || (c == 12 || c == 13))))

-- `strings.Fields(s)[0]`
pub word : Text → Text
word [] = []
word (c ∷ s) = let rest = word s in if is_space c then [] else c ∷ rest

pub first_field : Text → Option Text
unfolding word
first_field [] = none
first_field (c ∷ s) = let rest = first_field s in if is_space c then rest else some (c ∷ word s)

abbrev pub or_nothing : Option Text → Text
or_nothing none = []
or_nothing (some t) = t

abbrev pub param_prefix : Text
param_prefix = codes "param."

abbrev pub replace_key : Text → Text → Option Text → Map Text → Option Text
replace_key content arr none params = none
replace_key content arr (some key) params =
    if has_prefix key param_prefix
    then some
        (replace_from 0 arr (or_nothing (lookup (drop (length param_prefix) key) params)) content)
    else some content

abbrev pub replace_match : Text → Option Text → Map Text → Option Text
replace_match content none params = some content
replace_match content (some inner) params =
    replace_key content (codes "${{" ++ (inner ++ codes "}}")) (first_field inner) params

unfoldable pub replace_with_param : Text → Map Text → Option Text
unfolding first_match first_field replace_from
replace_with_param content params = replace_match content (first_match content) params
