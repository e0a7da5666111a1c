-- ===== src/Storage/Locations.antt =====
-- Where job/util.go keeps what: the yaml of a job, the yaml of a run and the log of a run. Different
-- ones have different paths.
use aline_engine.Base.{
  ◌≡◌, refl, sym, ◌∙◌, Bool, true, false, ◌&&◌, List, [], ◌∷◌, ◌++◌, arith, ◌↔◌,
}
use mathlib.Core.List.{append_assoc, append_cancel_left, append_cancel_right}
use aline_engine.Base.Int.{ℤ, int_eq, int_eq_iff}
use aline_engine.Base.Text.{Text, codes, text_eq, text_eq_iff}
use aline_engine.Storage.Files.{
  get_job_file_path, get_job_detail_file_path, get_job_detail_log_path, jobs_name,
}
use aline_engine.Utils.Decimal.{itoa, itoa_injective, count-itoa}
use aline_engine.Utils.Paths.{FilePath, join}
use aline_engine.Utils.Strings.{count}
use aline_engine.Utils.Paths.Laws.{IsElement, AreElements, is_dots, join_elements, with_extension}

pub data Location : Type 0 where
  job_file : Text → Location
  detail_file log_file : Text → ℤ → Location

abbrev pub location_eq : Location → Location → Bool
location_eq (job_file n) (job_file m) = text_eq n m
location_eq (detail_file n i) (detail_file m j) = text_eq n m && int_eq i j
location_eq (log_file n i) (log_file m j) = text_eq n m && int_eq i j
location_eq _ _ = false

pub location_eq_iff : (l m : Location) → (location_eq l m ≡ true) ↔ (l ≡ m)
location_eq_iff (job_file n) (job_file m) = ground (arith, text_eq_iff n m)
location_eq_iff (detail_file n i) (detail_file m j) =
    ground (arith, text_eq_iff n m, int_eq_iff i j)
location_eq_iff (log_file n i) (log_file m j) = ground (arith, text_eq_iff n m, int_eq_iff i j)
location_eq_iff (job_file n) (detail_file m j) = ground arith
location_eq_iff (job_file n) (log_file m j) = ground arith
location_eq_iff (detail_file n i) (job_file m) = ground arith
location_eq_iff (detail_file n i) (log_file m j) = ground arith
location_eq_iff (log_file n i) (job_file m) = ground arith
location_eq_iff (log_file n i) (detail_file m j) = ground arith

-- The name of a job is one plain element of a path.
abbrev pub IsNamed : Location → Type 0
IsNamed (job_file n) = IsElement n
IsNamed (detail_file n i) = IsElement n
IsNamed (log_file n i) = IsElement n

-- The part of the path below the configured folder.
abbrev relative : Location → List Text
relative (job_file n) = jobs_name ∷ n ∷ (n ++ codes ".yml") ∷ []
relative (detail_file n i) = jobs_name ∷ n ∷ codes "job-details" ∷ (itoa i ++ codes ".yml") ∷ []
relative (log_file n i) = jobs_name ∷ n ∷ codes "job-details-log" ∷ (itoa i ++ codes ".log") ∷ []

abbrev pub path_of : FilePath → Location → FilePath
path_of config (job_file n) = get_job_file_path config n
path_of config (detail_file n i) = get_job_detail_file_path config n i
path_of config (log_file n i) = get_job_detail_log_path config n i

no_slash : (i : ℤ) → count b'/' (itoa i) ≡ 0
no_slash i = count-itoa b'/' i (λ d h. omega arith) (omega arith)

not_empty : (e : Text) → is_dots e ≡ false → text_eq e [] ≡ false
not_empty e h = ground arith

-- One more element behind joined ones.
join_more :
    (p : FilePath) (es : List Text) (e : Text)
    → AreElements es
    → IsElement e
    → join (join p es) (e ∷ []) ≡ p ++ (es ++ (e ∷ []))
join_more p es e hs h =
    rw (join_elements p es hs, join_elements (p ++ es) (e ∷ []) (h, tt))
      (append_assoc p es (e ∷ []))

element : (e : Text) → is_dots e ≡ false → count b'/' e ≡ 0 → IsElement e
element e h h' = record { plain = h; whole = h' }

path_of_lem :
    (config : FilePath) (l : Location) → IsNamed l → path_of config l ≡ config ++ relative l
unfolding get_job_file_path get_job_detail_file_path get_job_detail_log_path text_eq
path_of_lem config (job_file n) h = rw (not_empty n h.plain) (
    join_more config (jobs_name ∷ n ∷ []) (n ++ codes ".yml") (element jobs_name refl refl, (h, tt))
      (with_extension n b'.' b'y' b'm' b'l' h.whole refl))
path_of_lem config (detail_file n i) h =
    join_more config (jobs_name ∷ n ∷ codes "job-details" ∷ []) (itoa i ++ codes ".yml")
      (element jobs_name refl refl, (h, (element (codes "job-details") refl refl, tt)))
      (with_extension (itoa i) b'.' b'y' b'm' b'l' (no_slash i) refl)
path_of_lem config (log_file n i) h =
    join_more config (jobs_name ∷ n ∷ codes "job-details-log" ∷ []) (itoa i ++ codes ".log")
      (element jobs_name refl refl, (h, (element (codes "job-details-log") refl refl, tt)))
      (with_extension (itoa i) b'.' b'l' b'o' b'g' (no_slash i) refl)

relative_injective : (l m : Location) → relative l ≡ relative m → l ≡ m
relative_injective (job_file n) (job_file m) h = ground arith
relative_injective (detail_file n i) (detail_file m j) h =
    ground (arith, itoa_injective i j, append_cancel_right (itoa i) (itoa j) (codes ".yml"))
relative_injective (log_file n i) (log_file m j) h =
    ground (arith, itoa_injective i j, append_cancel_right (itoa i) (itoa j) (codes ".log"))
relative_injective (job_file n) (detail_file m j) h = ground arith
relative_injective (job_file n) (log_file m j) h = ground arith
relative_injective (detail_file n i) (job_file m) h = ground arith
relative_injective (detail_file n i) (log_file m j) h = ground arith
relative_injective (log_file n i) (job_file m) h = ground arith
relative_injective (log_file n i) (detail_file m j) h = ground arith

pub path_of_injective :
    (config : FilePath) (l m : Location)
    → IsNamed l
    → IsNamed m
    → path_of config l ≡ path_of config m
    → l ≡ m
path_of_injective config l m hl hm e = relative_injective l m (
    append_cancel_left config (relative l) (relative m)
      (sym (path_of_lem config l hl) ∙ e ∙ path_of_lem config m hm))
