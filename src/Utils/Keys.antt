-- ===== src/Utils/Keys.antt =====
-- utils/util.go: the string keys of nodes and jobs. A job's key is printed by `FormatJobToString`
-- and read back, for jobs whose step timed out, by `GetJobNameAndIDFromFormatString`.
pub mod Laws
use aline_engine.Base.{ℕ, Option, none, some, List, [], ◌∷◌, ◌++◌}
use aline_engine.Base.Int.{ℤ}
use aline_engine.Base.Text.{Text}
use aline_engine.Utils.Strings.{split, trim_right}
use aline_engine.Utils.Decimal.{itoa, atoi}

unfoldable pub get_node_key : Text → Text → Text
get_node_key name address = name ++ (b'@' ∷ address)

pub format_job_to_string : Text → ℤ → Text
format_job_to_string name id = name ++ (b'(' ∷ (itoa id ++ (b')' ∷ [])))

abbrev with_name : Text → Option ℤ → Option (Text × ℤ)
with_name name none = none
with_name name (some id) = some (name, id)

-- `len(splitString) != 2`, and what is done with the two parts. `none` is the error.
abbrev from_parts : List Text → Option (Text × ℤ)
from_parts (name ∷ rest ∷ []) = with_name name (atoi (trim_right b')' rest))
from_parts _ = none

pub get_job_name_and_id_from_format_string : Text → Option (Text × ℤ)
get_job_name_and_id_from_format_string str = from_parts (split b'(' str)
