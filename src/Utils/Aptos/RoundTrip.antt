-- ===== src/Utils/Aptos/RoundTrip.antt =====
-- Pairs that are written as a text are read back.
use mathlib.Core.List.{append_assoc, append-nil}
use aline_engine.Base.{ℕ, ◌≡◌, refl, sym, ap, ◌∙◌, some, List, [], ◌∷◌, ◌++◌, arith}
use aline_engine.Base.Text.{Text}
use aline_engine.Storage.Os.{ok}
use aline_engine.Utils.Aptos.{
  KeyValue, pair_text, all_pairs, key_values_to_string, pair_of, pairs_of, key_values_from_string,
}
use aline_engine.Utils.Strings.{
  split, count, count-append, split_absent, split-append, trim_right, trim_right-append,
}
use aline_engine.Utils.Texts.{trim_space}

-- A text without the two separators and without white space at its ends.
pub record IsPart (t : Text) : Type 0 where
  pub no_comma : count b',' t ≡ 0
  pub no_equals : count b'=' t ≡ 0
  pub trimmed : trim_space t ≡ t

abbrev pub AreParts : List KeyValue → Type 0
AreParts [] = Unit {0}
AreParts (p ∷ ps) = IsPart p.key × IsPart p.value × AreParts ps

-- The pairs with a separator between two of them.
abbrev joined : KeyValue → List KeyValue → Text
joined p [] = pair_text p
joined p (q ∷ ps) = pair_text p ++ (b',' ∷ joined q ps)

trim_front :
    (c : ℕ) (s t : Text) (x : ℕ) (u : Text)
    → trim_right c t ≡ x ∷ u
    → trim_right c (s ++ t) ≡ s ++ (x ∷ u)
unfolding trim_right
trim_front c [] t x u e = e
trim_front c (b ∷ []) t x u e = rw (trim_right, e) refl
trim_front c (b ∷ y ∷ s) t x u e = ground (arith, trim_front c (y ∷ s) t x u e)

front_of : (s t : Text) (c : ℕ) → (x : ℕ) × (u : Text) × (s ++ (c ∷ t) ≡ x ∷ u)
front_of [] t c = (c, t, refl)
front_of (x ∷ s) t c = (x, s ++ (c ∷ t), refl)

joined_front : (p : KeyValue) (ps : List KeyValue) → (x : ℕ) × (u : Text) × (joined p ps ≡ x ∷ u)
joined_front p [] = front_of p.key p.value b'='
joined_front p (q ∷ ps) =
    let (x, u, e) = front_of p.key (p.value ++ (b',' ∷ joined q ps)) b'=' in
    (x, u, append_assoc p.key (b'=' ∷ p.value) (b',' ∷ joined q ps) ∙ e)

count_pair : (p : KeyValue) → IsPart p.key → IsPart p.value → count b',' (pair_text p) ≡ 0
count_pair p h k = ground (arith, count-append b',' p.key (b'=' ∷ p.value), h.no_comma, k.no_comma)

trim_right-all_pairs :
    (p : KeyValue) (ps : List KeyValue)
    → AreParts (p ∷ ps)
    → trim_right b',' (all_pairs (p ∷ ps)) ≡ joined p ps
trim_right-all_pairs p [] (h, k, hs) =
    rw (append-nil (pair_text p ++ (b',' ∷ [])))
      (trim_right-append b',' (pair_text p) (count_pair p h k))
trim_right-all_pairs p (q ∷ ps) (h, k, hs) =
    let (x, u, e) = joined_front q ps in
    trim_front b',' (pair_text p ++ (b',' ∷ [])) (all_pairs (q ∷ ps)) x u
      (trim_right-all_pairs q ps hs ∙ e)
    ∙ (append_assoc (pair_text p) (b',' ∷ []) (x ∷ u)
        ∙ ap (λ (t : Text). pair_text p ++ (b',' ∷ t)) (sym e))

abbrev pair_texts : List KeyValue → List Text
pair_texts [] = []
pair_texts (p ∷ ps) = pair_text p ∷ pair_texts ps

split-joined :
    (p : KeyValue) (ps : List KeyValue)
    → AreParts (p ∷ ps)
    → split b',' (joined p ps) ≡ pair_texts (p ∷ ps)
split-joined p [] (h, k, hs) = split_absent b',' (pair_text p) (count_pair p h k)
split-joined p (q ∷ ps) (h, k, hs) =
    split-append b',' (pair_text p) (joined q ps) (count_pair p h k)
    ∙ ap (◌∷◌ (pair_text p)) (split-joined q ps hs)

pair_of-split :
    (p : KeyValue) → IsPart p.key → IsPart p.value → pair_of (split b'=' (pair_text p)) ≡ some p
pair_of-split p h k =
    rw
      (
        split-append b'=' p.key p.value h.no_equals,
        split_absent b'=' p.value k.no_equals,
        h.trimmed,
        k.trimmed,
      )
      refl

pairs_of-pair_texts : (ps : List KeyValue) → AreParts ps → pairs_of (pair_texts ps) ≡ some ps
unfolding pairs_of
pairs_of-pair_texts [] h = refl
pairs_of-pair_texts (p ∷ ps) (h, k, hs) =
    rw (pairs_of, pair_of-split p h k, pairs_of-pair_texts ps hs) refl

-- One pair or more, whose keys and values hold neither separator and no white space at their ends, are read
-- back from their text.
pub key_values_from_string-key_values_to_string :
    (p : KeyValue) (ps : List KeyValue)
    → AreParts (p ∷ ps)
    → key_values_from_string (key_values_to_string (p ∷ ps)) ≡ ok (p ∷ ps)
unfolding key_values_from_string key_values_to_string
key_values_from_string-key_values_to_string p ps h =
    rw (trim_right-all_pairs p ps h, split-joined p ps h, pairs_of-pair_texts (p ∷ ps) h) refl
