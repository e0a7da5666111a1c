-- ===== src/Utils/Page/Laws.antt =====
-- What a page of `SlicePage` shows.
use aline_engine.Base.{
  ℕ, zero, suc, ◌+◌, ◌-◌, ◌*◌, ◌/◌, ◌≤◌, ◌<◌, ◌≡◌, refl, ap, ◌∙◌, sym, arith, ltb, if◌then◌else◌,
  List, [], ◌∷◌, ◌++◌, take, drop, length, length-drop,
}
use native.Mathlib.Nat.{zero-add, add-zero, suc-add, zero-mul}
use aline_engine.Base.Int.{ℤ, pos, negsuc}
use aline_engine.Utils.Page.{slice_from, slice_page, slice, page_count}

row_below : (n size nums : ℕ) → 0 < size → n < (nums + size - 1) / size → n * size < nums
row_below n size nums h below = grind arith

page_below : (n size nums : ℕ) → 0 < size → n * size < nums → n < (nums + size - 1) / size
page_below n size nums h below = grind arith

take-add {ℓ} :
    {A : Type ℓ} (n m : ℕ) (xs : List A) → take (n + m) xs ≡ take n xs ++ take m (drop n xs)
take-add zero m xs = rw zero-add
take-add (suc n) zero [] = rw add-zero
take-add (suc n) (suc m) [] = rw suc-add
take-add (suc n) m (x ∷ xs) = rw suc-add (ap (◌∷◌ x) (take-add n m xs))

take_clip {ℓ} : {A : Type ℓ} (n : ℕ) (xs : List A) → length xs ≤ n → take n xs ≡ xs
take_clip zero [] h = refl
take_clip zero (x ∷ xs) h = absurd (omega arith)
take_clip (suc n) [] h = refl
take_clip (suc n) (x ∷ xs) h = ap (◌∷◌ x) (take_clip n xs (omega arith))

-- The rows of the pages 1 to `n`, one after the other.
abbrev pub pages : {A : Type 0} → ℤ → ℕ → List A → ℕ → List A
pages non_finite size rows zero = []
pages non_finite size rows (suc n) =
    pages non_finite size rows n
    ++ slice rows (slice_page non_finite (pos (suc n)) (pos size) (length rows))

slice_page_bounds_at :
    (non_finite : ℤ) (n size nums : ℕ)
    → let p = slice_from non_finite (suc n) size nums in (p.start ≤ p.end) × (p.end ≤ nums)
unfolding page_count
slice_page_bounds_at non_finite n zero nums = ground arith
slice_page_bounds_at non_finite n (suc k) nums = ground (arith, row_below n (suc k) nums)

-- Whatever page and size are asked for, the two ends are in order and within the list.
pub slice_page_bounds :
    (non_finite page size : ℤ) (nums : ℕ)
    → let p = slice_page non_finite page size nums in (p.start ≤ p.end) × (p.end ≤ nums)
unfolding slice_page
slice_page_bounds non_finite (pos zero) size nums = slice_page_bounds_at non_finite 0 _ nums
slice_page_bounds non_finite (pos (suc n)) size nums = slice_page_bounds_at non_finite n _ nums
slice_page_bounds non_finite (negsuc n) size nums = slice_page_bounds_at non_finite 0 _ nums

slice_page_in :
    (non_finite : ℤ) (n size nums : ℕ)
    → 0 < size
    → size ≤ nums
    → n * size < nums
    → let p = slice_page non_finite (pos (suc n)) (pos size) nums in
      (p.start ≡ n * size)
      × (p.end ≡ (if ltb nums (n * size + size) then nums else n * size + size))
unfolding slice_page
slice_page_in non_finite n size nums h fits below = ground (arith, page_below n size nums)

take_short :
    {A : Type 0} (n m : ℕ) (xs : List A) → length xs ≤ n → length xs ≤ m → take n xs ≡ take m xs
take_short n m xs h k = take_clip n xs h ∙ sym (take_clip m xs k)

page_rows :
    {A : Type 0} (non_finite : ℤ) (size n : ℕ) (rows : List A)
    → 0 < size
    → size ≤ length rows
    → n * size < length rows
    → slice rows (slice_page non_finite (pos (suc n)) (pos size) (length rows))
      ≡ take size (drop (n * size) rows)
page_rows non_finite size n rows h fits below =
    let (starts, ends) = slice_page_in non_finite n size (length rows) h fits below in
    ground (
      arith,
      starts,
      ends,
      length-drop (n * size) rows,
      take_short (length rows - n * size) size (drop (n * size) rows),
    )

-- The first `n` pages of a list that has more rows than `n - 1` pages hold.
pages_lem :
    {A : Type 0} (non_finite : ℤ) (size n : ℕ) (rows : List A)
    → 0 < size
    → size ≤ length rows
    → (n - 1) * size < length rows
    → pages non_finite size rows n ≡ take (n * size) rows
pages_lem non_finite size zero rows h fits below = rw zero-mul
pages_lem non_finite size (suc n) rows h fits below =
    let before : n * size < length rows = grind arith in
    let whole : suc n * size ≡ n * size + size = grind arith in
    rw (page_rows non_finite size n rows h fits before) (
      rw (pages_lem non_finite size n rows h fits (grind arith))
        (rw whole (sym (take-add (n * size) size rows))))

-- The pages of a list, from the first to the last, are the list: no row is shown twice and none is
-- missing. The size is at least 1 and at most the number of rows.
pub pages_cover :
    {A : Type 0} (non_finite : ℤ) (size : ℕ) (rows : List A)
    → 0 < size
    → size ≤ length rows
    → pages non_finite size rows ((length rows + size - 1) / size) ≡ rows
pages_cover non_finite size rows h fits =
    let count : ℕ = (length rows + size - 1) / size in
    pages_lem non_finite size count rows h fits
      (row_below (count - 1) size (length rows) h (grind (arith, page_below 0 size (length rows))))
    ∙ take_clip (count * size) rows (grind arith)

-- With a page size above the number of rows every page, not only the first, shows all rows.
pub slice_page_large :
    {A : Type 0} (non_finite page : ℤ) (size : ℕ) (rows : List A)
    → length rows < size
    → slice rows (slice_page non_finite page (pos size) (length rows)) ≡ rows
unfolding slice_page
slice_page_large non_finite page size rows h = ground (arith, take_clip (length rows) rows)
