-- ===== src/Utils/Aptos.antt =====
-- utils/aptos.go: named addresses as a list "key=value,...". Package toml is a parameter, and a map is
-- the list of its entries in the order in which `range` visits them. White space is that of ASCII.
pub mod RoundTrip
use aline_engine.Base.{
  ◌+◌, Bool, Option, none, some, List, [], ◌∷◌, ◌++◌, ◌/◌, ◌%◌, ◌==◌, if◌then◌else◌, ltb, ℕ,
}
use aline_engine.Base.Map.{Map, insert}
use aline_engine.Base.Text.{Text, codes, text_eq}
use aline_engine.Utils.Texts.{trim_space}
use aline_engine.Storage.Os.{Fallible, ok, failed}
use aline_engine.Utils.Strings.{split, trim_right}

pub record Package : Type 0 where
  pub name : Text
  pub version : Text

pub record MoveToml (Any : Type 0) : Type 0 where
  pub package_info : Package
  pub addresses : Map Text
  pub dependencies : Map Any

pub record KeyValue : Type 0 where
  pub key : Text
  pub value : Text

abbrev key_values_of : Map Text → List KeyValue
key_values_of [] = []
key_values_of ((k, v) ∷ m) = record { key = k; value = v } ∷ key_values_of m

unfoldable pub get_address_field : {Any : Type 0} → MoveToml Any → List KeyValue
get_address_field m = key_values_of m.addresses

abbrev pub pair_text : KeyValue → Text
pair_text p = p.key ++ (b'=' ∷ p.value)

-- The loop of `KeyValuesToString`.
abbrev pub all_pairs : List KeyValue → Text
all_pairs [] = []
all_pairs (p ∷ ps) = (pair_text p ++ (b',' ∷ [])) ++ all_pairs ps

pub key_values_to_string : List KeyValue → Text
unfolding trim_right
key_values_to_string ps = trim_right b',' (all_pairs ps)

-- A part has one "=".
abbrev pub pair_of : List Text → Option KeyValue
pair_of (k ∷ v ∷ []) = some (record { key = trim_space k; value = trim_space v })
pair_of _ = none

abbrev pub format_error : Text → Text
format_error text = codes "keyValueString format error: " ++ text

-- The loop over the parts; `none` is a part without its "=".
pub pairs_of : List Text → Option (List KeyValue)
unfolding split
pairs_of [] = some []
pairs_of (part ∷ parts) = elim (pair_of (split b'=' part)) [
  | none ↦ none
  | some p ↦ elim (pairs_of parts) [ none ↦ none | some ps ↦ some (p ∷ ps) ]
]

abbrev or_error : {A : Type 0} → Text → Option A → Fallible A
or_error text none = failed (format_error text)
or_error text (some a) = ok a

pub key_values_from_string : Text → Fallible (List KeyValue)
unfolding pairs_of split
key_values_from_string text = or_error text (pairs_of (split b',' text))

-- A later value of a key replaces an earlier one.
pub insert_pairs : List KeyValue → Map Text → Map Text
unfolding insert
insert_pairs [] m = m
insert_pairs (p ∷ ps) m = insert_pairs ps (insert p.key p.value m)

abbrev map_of_pairs : Fallible (List KeyValue) → Fallible (Map Text)
map_of_pairs (ok ps) = ok (insert_pairs ps [])
map_of_pairs (failed e) = failed e

unfoldable pub get_key_values_from_string : Text → Fallible (Map Text)
unfolding key_values_from_string insert_pairs
get_key_values_from_string text = map_of_pairs (key_values_from_string text)

-- The keys whose address is open.
pub default_keys : Map Text → List Text
unfolding text_eq
default_keys [] = []
default_keys ((k, v) ∷ m) =
    let rest = default_keys m in if text_eq v (codes "_") then k ∷ rest else rest

abbrev pub joined_default : Text → Text → Text
joined_default [] s = s ++ codes "=default"
joined_default (c ∷ t) s = (c ∷ t) ++ codes "," ++ s ++ codes "=default"

pub join_defaults : Text → List Text → Text
join_defaults t [] = t
join_defaults t (s ∷ l) = join_defaults (joined_default t s) l

-- What follows after `ParseMoveToml`.
unfoldable pub get_default_named_address : {Any : Type 0} → Fallible (MoveToml Any) → Fallible Text
unfolding default_keys join_defaults
get_default_named_address (failed e) = failed e
get_default_named_address (ok m) = ok (join_defaults [] (default_keys m.addresses))

abbrev hex_digit : ℕ → ℕ
hex_digit d = if ltb d 10 then b'0' + d else b'W' + d

-- `hex.EncodeToString`
pub encode_hex : Text → Text
encode_hex [] = []
encode_hex (b ∷ s) = hex_digit (b / 16) ∷ hex_digit (b % 16) ∷ encode_hex s

unfoldable pub file_to_hex_string : Fallible Text → Fallible Text
unfolding encode_hex
file_to_hex_string (failed e) = failed e
file_to_hex_string (ok bytes) = ok (encode_hex bytes)
