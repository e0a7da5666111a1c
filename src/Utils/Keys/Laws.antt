-- ===== src/Utils/Keys/Laws.antt =====
-- What the keys of utils/util.go promise: a job's key names one job, and is read back.
use aline_engine.Base.{
  ℕ, ◌+◌, ◌≡◌, ap, true, none, some, List, [], ◌∷◌, ◌++◌, arith, ◌==◌, ◌-◌, if◌then◌else◌, length,
  ◌∙◌, Bool-cases, ==_iff, inl, inr,
}
use aline_engine.Base.Int.{ℤ}
use aline_engine.Base.Text.{Text}
use aline_engine.Utils.Strings.{
  split, trim_right, count, count-append, length-split, split_absent, split-append,
  trim_right-append, last_separator,
}
use aline_engine.Utils.Decimal.{itoa, count-itoa, atoi-itoa, itoa_injective, fits_int}
use aline_engine.Utils.Keys.{
  from_parts, format_job_to_string, get_job_name_and_id_from_format_string,
}

count-tail : (c : ℕ) (id : ℤ) → c ≡ b'(' → count c (itoa id ++ b')' ∷ []) ≡ 0
count-tail c id e = ground (
  arith,
  count-append c (itoa id) (b')' ∷ []),
  count-itoa c id (λ d h. omega arith) (omega arith),
)

from_parts_long : (l : List Text) (n : ℕ) → length l ≡ n + 3 → from_parts l ≡ none
from_parts_long [] n h = absurd (omega arith)
from_parts_long (a ∷ []) n h = absurd (omega arith)
from_parts_long (a ∷ b ∷ []) n h = absurd (omega arith)
from_parts_long (a ∷ b ∷ c ∷ l) n h = ground arith

split-format :
    (name : Text) (id : ℤ)
    → count b'(' name ≡ 0
    → split b'(' (format_job_to_string name id) ≡ name ∷ (itoa id ++ b')' ∷ []) ∷ []
unfolding format_job_to_string
split-format name id h =
    split-append b'(' name _ h
    ∙ ap (◌∷◌ name) (split_absent b'(' _ (count-tail b'(' id (omega arith)))

trim_id : (id : ℤ) → trim_right b')' (itoa id ++ b')' ∷ []) ≡ itoa id
trim_id id =
    trim_right-append b')' (itoa id) (count-itoa b')' id (λ d h. omega arith) (omega arith))

count-format :
    (name : Text) (id : ℤ) → count b'(' (format_job_to_string name id) ≡ count b'(' name + 1
unfolding format_job_to_string
count-format name id = ground (
  arith,
  count-append b'(' name (b'(' ∷ (itoa id ++ b')' ∷ [])),
  count-tail b'(' id (omega arith),
)

-- The key of a job is read back exactly when the job's name has no opening bracket; a name with
-- one is refused. The id is any value of Go's `int`.
pub get_job_name_and_id-format_job :
    (name : Text) (id : ℤ)
    → fits_int id ≡ true
    → get_job_name_and_id_from_format_string (format_job_to_string name id)
      ≡ (if count b'(' name == 0 then some (name, id) else none)
unfolding get_job_name_and_id_from_format_string
get_job_name_and_id-format_job name id h = elim (Bool-cases (count b'(' name == 0)) [
  | inl plain ↦
      rw plain
        (rw (split-format name id ((==_iff _ 0).0 plain)) (rw (trim_id id) (rw (atoi-itoa id h))))
  | inr bracket ↦ rw bracket (
      from_parts_long _ (count b'(' name - 1)
        (ground (arith, length-split b'(' (format_job_to_string name id), count-format name id)))
]

-- Two jobs have one key only if they have one name and one id.
pub format_job_to_string_injective :
    (name name' : Text) (id id' : ℤ)
    → format_job_to_string name id ≡ format_job_to_string name' id'
    → (name ≡ name') × (id ≡ id')
unfolding format_job_to_string
format_job_to_string_injective name name' id id' e =
    let (names, tails) =
      last_separator b'(' name name' _ _ (count-tail b'(' id (omega arith))
        (count-tail b'(' id' (omega arith)) e in
    (names, itoa_injective id id' (cc (trim_id id, trim_id id', ap (trim_right b')') tails)))
