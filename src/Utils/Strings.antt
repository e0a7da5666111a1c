-- ===== src/Utils/Strings.antt =====
-- What the program uses of Go's package `strings`, over bytes.
use aline_engine.Base.{
  Bool, ◌||◌, ℕ, suc, ◌+◌, ◌≡◌, refl, List, [], ◌∷◌, ◌++◌, arith, ◌==◌, if◌then◌else◌, length, drop,
  ◌≢◌,
}
use aline_engine.Base.Text.{Text, text_eq, has_prefix}

abbrev cons_head : ℕ → List Text → List Text
cons_head b [] = (b ∷ []) ∷ []
cons_head b (s ∷ r) = (b ∷ s) ∷ r

-- `strings.Split(s, c)` for a separator of one byte.
unfoldable pub split : ℕ → Text → List Text
split c [] = [] ∷ []
split c (b ∷ s) = let rest = split c s in if b == c then [] ∷ rest else cons_head b rest

-- `strings.TrimRight(s, c)` for a cut set of one byte.
unfoldable pub trim_right : ℕ → Text → Text
trim_right c [] = []
trim_right c (b ∷ s) =
    let rest = trim_right c s in
    elim rest [ [] ↦ if b == c then [] else b ∷ [] | r ∷ rs ↦ b ∷ r ∷ rs ]

-- `strings.TrimPrefix(s, p)`
abbrev pub trim_prefix : Text → Text → Text
trim_prefix s p = if has_prefix s p then drop (length p) s else s

-- `strings.TrimSuffix(s, p)`
unfoldable pub trim_suffix : Text → Text → Text
trim_suffix [] p = []
trim_suffix (b ∷ s) p = let rest = trim_suffix s p in if text_eq (b ∷ s) p then [] else b ∷ rest

-- `strings.Contains(s, t)`
pub contains_text : Text → Text → Bool
contains_text [] t = has_prefix [] t
contains_text (b ∷ s) t = let rest = contains_text s t in has_prefix (b ∷ s) t || rest

-- How often a byte stands in a text.
abbrev pub count : ℕ → Text → ℕ
count c [] = 0
count c (b ∷ s) = let rest = count c s in if b == c then suc rest else rest

pub count-append : (c : ℕ) (s t : Text) → count c (s ++ t) ≡ count c s + count c t
count-append c [] t = omega arith
count-append c (b ∷ s) t = ground (arith, count-append c s t)

length-cons_head : (b : ℕ) (l : List Text) → l ≢ [] → length (cons_head b l) ≡ length l
length-cons_head b [] h = absurd (h refl)
length-cons_head b (s ∷ l) h = refl

split-ne-nil : (c : ℕ) (s : Text) → split c s ≢ []
unfolding split
split-ne-nil c [] = ground arith
split-ne-nil c (b ∷ s) = ground arith

-- A text is cut into one part more than it has separators.
pub length-split : (c : ℕ) (s : Text) → length (split c s) ≡ count c s + 1
unfolding split
length-split c [] = omega arith
length-split c (b ∷ s) =
    ground (arith, length-split c s, split-ne-nil c s, length-cons_head b (split c s))

pub split_absent : (c : ℕ) (s : Text) → count c s ≡ 0 → split c s ≡ s ∷ []
unfolding split
split_absent c [] h = refl
split_absent c (b ∷ s) h = ground (arith, split_absent c s)

pub split-append : (c : ℕ) (s t : Text) → count c s ≡ 0 → split c (s ++ c ∷ t) ≡ s ∷ split c t
unfolding split
split-append c [] t h = ground arith
split-append c (b ∷ s) t h = ground (arith, split-append c s t)

trim_right_absent : (c : ℕ) (s : Text) → count c s ≡ 0 → trim_right c s ≡ s
unfolding trim_right
trim_right_absent c [] h = refl
trim_right_absent c (b ∷ s) h = ground (arith, trim_right_absent c s)

pub trim_right-append : (c : ℕ) (s : Text) → count c s ≡ 0 → trim_right c (s ++ c ∷ []) ≡ s
unfolding trim_right
trim_right-append c [] h = ground arith
trim_right-append c (b ∷ s) h = ground (arith, trim_right-append c s)

-- The last separator of a text decides its two parts.
pub last_separator :
    (c : ℕ) (s t u v : Text)
    → count c u ≡ 0
    → count c v ≡ 0
    → s ++ c ∷ u ≡ t ++ c ∷ v
    → (s ≡ t) × (u ≡ v)
last_separator c [] [] u v hu hv e = ground arith
last_separator c [] (b ∷ t) u v hu hv e = ground (arith, count-append c t (c ∷ v))
last_separator c (a ∷ s) [] u v hu hv e = ground (arith, count-append c s (c ∷ u))
last_separator c (a ∷ s) (b ∷ t) u v hu hv e = ground (arith, last_separator c s t u v)
