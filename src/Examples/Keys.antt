-- ===== src/Examples/Keys.antt =====
-- Keys, pages and statuses.
use aline_engine.Base.{ℕ, ◌≡◌, ◌≤◌, refl, some, List, [], ◌∷◌}
use aline_engine.Base.Int.{pos, negsuc}
use aline_engine.Base.Text.{codes}
use aline_engine.Utils.Keys.{format_job_to_string, get_job_name_and_id_from_format_string}
use aline_engine.Utils.Keys.Laws.{get_job_name_and_id-format_job}
use aline_engine.Utils.Page.{slice_page}
use aline_engine.Utils.Page.Laws.{slice_page_bounds}

get_job_name_and_id-format_job_example :
    get_job_name_and_id_from_format_string (format_job_to_string (codes "site") (negsuc 6))
    ≡ some (codes "site", negsuc 6)
get_job_name_and_id-format_job_example =
    get_job_name_and_id-format_job (codes "site") (negsuc 6) refl

abbrev three : List ℕ
three = 4 ∷ 5 ∷ 6 ∷ []

slice_page_bounds_example :
    let p = slice_page (pos 0) (pos 2) (pos 2) 3 in (p.start ≤ p.end) × (p.end ≤ 3)
slice_page_bounds_example = slice_page_bounds (pos 0) (pos 2) (pos 2) 3
