-- ===== src/Utils/Page.antt =====
-- utils/util.go `SlicePage`: which part of a list a page shows (`JobList`, `JobDetailList`).
-- The float division is exact below 2^53 rows, so it is division rounded up. At page size 0 its
-- value is not finite, and Go leaves the conversion to `int` open: the parameter `non_finite`.
pub mod Laws
use aline_engine.Base.{ℕ, zero, suc, ◌+◌, ◌-◌, ◌*◌, ◌/◌, ltb, ◌==◌, if◌then◌else◌, List, take, drop}
use aline_engine.Base.Int.{ℤ, pos, negsuc, ltb_ℤ}

abbrev pub page_or_first : ℤ → ℕ
page_or_first (pos zero) = 1
page_or_first (pos (suc n)) = suc n
page_or_first (negsuc n) = 1

abbrev pub size_or_ten : ℤ → ℕ
size_or_ten (pos n) = n
size_or_ten (negsuc n) = 10

-- `int(math.Ceil(float64(nums) / float64(pageSize)))`
pub page_count : (non_finite : ℤ) (nums size : ℕ) → ℤ
page_count non_finite nums size = if size == 0 then non_finite else pos ((nums + size - 1) / size)

-- The returned page, page size, start and end.
pub record Page : Type 0 where
  pub page : ℕ
  pub size : ℕ
  pub start : ℕ
  pub end : ℕ

abbrev clip : ℕ → ℕ → ℕ
clip nums end = if ltb nums end then nums else end

abbrev slice_from : (non_finite : ℤ) (page size nums : ℕ) → Page
slice_from non_finite page size nums =
    let start = (page - 1) * size in
    if ltb nums size
    then record { page = page; size = size; start = 0; end = nums }
    else if ltb_ℤ (page_count non_finite nums size) (pos page)
    then record { page = page; size = size; start = 0; end = 0 }
    else record { page = page; size = size; start = start; end = clip nums (start + size) }

pub slice_page : (non_finite page size : ℤ) (nums : ℕ) → Page
unfolding page_count
slice_page non_finite page size nums =
    slice_from non_finite (page_or_first page) (size_or_ten size) nums

-- `rows[start:end]`
abbrev pub slice {ℓ} : {A : Type ℓ} → List A → Page → List A
slice rows p = take (p.end - p.start) (drop p.start rows)
