-- ===== src/Utils/Paths/Laws.antt =====
-- Paths of plain elements: joining them appends them.
use aline_engine.Base.{ℕ, ◌≡◌, sym, Bool, false, ◌||◌, List, [], ◌∷◌, ◌++◌, arith}
use mathlib.Core.List.{append_assoc, append-nil}
use aline_engine.Base.Text.{Text, codes, text_eq}
use aline_engine.Utils.Paths.{FilePath, enter, enter_all, join}
use aline_engine.Utils.Strings.{count, count-append, split_absent}

-- The elements that `filepath.Clean` drops.
abbrev pub is_dots : Text → Bool
is_dots e = text_eq e [] || (text_eq e (codes ".") || text_eq e (codes ".."))

-- An element that `filepath.Join` keeps as it is.
pub record IsElement (e : Text) : Type 0 where
  pub plain : is_dots e ≡ false
  pub whole : count b'/' e ≡ 0

pub enter_element : (p : FilePath) (e : Text) → is_dots e ≡ false → enter p e ≡ p ++ (e ∷ [])
unfolding enter
enter_element p e h = ground arith

-- Every element of a list is one that is kept.
abbrev pub AreElements : List Text → Type 0
AreElements [] = Unit {0}
AreElements (e ∷ es) = IsElement e × AreElements es

pub enter_all_elements : (p : FilePath) (es : List Text) → AreElements es → enter_all p es ≡ p ++ es
unfolding enter_all
enter_all_elements p [] h = sym (append-nil p)
enter_all_elements p (e ∷ es) (h, hs) =
    rw (enter_element p e h.plain, enter_all_elements (p ++ (e ∷ [])) es hs)
      (append_assoc p (e ∷ []) es)

pub join_elements : (p : FilePath) (es : List Text) → AreElements es → join p es ≡ p ++ es
unfolding join enter_all
join_elements p [] h = sym (append-nil p)
join_elements p (e ∷ es) (h, hs) =
    rw (split_absent b'/' e h.whole, enter_element p e h.plain, join_elements (p ++ (e ∷ [])) es hs)
      (append_assoc p (e ∷ []) es)

four-not-dots : (s : Text) (a b c d : ℕ) → is_dots (s ++ (a ∷ b ∷ c ∷ d ∷ [])) ≡ false
unfolding text_eq
four-not-dots [] a b c d = ground arith
four-not-dots (x ∷ []) a b c d = ground arith
four-not-dots (x ∷ y ∷ []) a b c d = ground arith
four-not-dots (x ∷ y ∷ z ∷ s) a b c d = ground arith

-- An extension of three letters behind a name without separators.
pub with_extension :
    (s : Text) (a b c d : ℕ)
    → count b'/' s ≡ 0
    → count b'/' (a ∷ b ∷ c ∷ d ∷ []) ≡ 0
    → IsElement (s ++ (a ∷ b ∷ c ∷ d ∷ []))
with_extension s a b c d h h' = record {
  plain = four-not-dots s a b c d;
  whole = ground (arith, count-append b'/' s (a ∷ b ∷ c ∷ d ∷ []));
}
