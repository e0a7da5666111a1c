-- ===== src/Base/Map.antt =====
-- A Go map with string keys, as an association list. `insert` is `m[k] = v` and `sync.Map.Store`,
-- `erase` is `delete(m, k)` and `sync.Map.Delete`, `lookup` is `v, ok := m[k]` and `sync.Map.Load`.
use Prim.Native.Nat.{ℕ, zero, suc, ◌+◌, ◌≤◌}
use mathlib.Core.Path.{◌≡◌, refl, ap, subst}
use mathlib.Core.Logic.{◌≢◌, inl, inr}
use mathlib.Core.Bool.{Bool, true, false, ◌||◌}
use mathlib.Core.Option.{Option, none, some}
use mathlib.Core.List.{List, [], ◌∷◌, ◌++◌}
use native.Mathlib.Omega.{arith}
use aline_engine.Base.Tests.{if◌then◌else◌, Bool-cases}
use aline_engine.Base.Lists.{length, get_elem?, take, drop}
use aline_engine.Base.Text.{Text, text_eq, text_eq_iff}

abbrev pub Map {ℓ} : Type ℓ → Type ℓ
Map V = List (Text × V)

key_eq : {j k : Text} → some j ≡ some k → j ≡ k
key_eq h = cc

-- Whether a key stands in a list.
abbrev pub contains : Text → List Text → Bool
contains k [] = false
contains k (j ∷ l) = text_eq j k || contains k l

module _ {ℓ} {V : Type ℓ} where
  unfoldable pub lookup : Text → Map V → Option V
  unfolding text_eq
  lookup k [] = none
  lookup k ((j, v) ∷ m) = if text_eq j k then some v else lookup k m

  unfoldable pub insert : Text → V → Map V → Map V
  unfolding text_eq
  insert k v [] = (k, v) ∷ []
  insert k v ((j, w) ∷ m) = if text_eq j k then (k, v) ∷ m else (j, w) ∷ insert k v m

  unfoldable pub erase : Text → Map V → Map V
  unfolding text_eq
  erase k [] = []
  erase k ((j, w) ∷ m) = if text_eq j k then erase k m else (j, w) ∷ erase k m

  abbrev pub keys : Map V → List Text
  keys [] = []
  keys ((k, v) ∷ m) = k ∷ keys m

  abbrev pub is_some : Option V → Bool
  is_some none = false
  is_some (some v) = true

  pub lookup-insert :
      (k j : Text) (v : V) (m : Map V)
      → lookup j (insert k v m) ≡ (if text_eq k j then some v else lookup j m)
  unfolding lookup insert
  lookup-insert k j v [] = refl
  lookup-insert k j v ((i, w) ∷ m) =
      ground (arith, text_eq_iff k j, text_eq_iff i k, text_eq_iff i j, lookup-insert k j v m)

  pub lookup-erase :
      (k j : Text) (m : Map V) → lookup j (erase k m) ≡ (if text_eq k j then none else lookup j m)
  unfolding lookup erase
  lookup-erase k j [] = ground arith
  lookup-erase k j ((i, w) ∷ m) =
      ground (arith, text_eq_iff k j, text_eq_iff i k, text_eq_iff i j, lookup-erase k j m)

  pub lookup-insert_self : (k : Text) (v : V) (m : Map V) → lookup k (insert k v m) ≡ some v
  lookup-insert_self k v m = ground (arith, lookup-insert k k v m, text_eq_iff k k)

  pub lookup-erase_self : (k : Text) (m : Map V) → lookup k (erase k m) ≡ none
  lookup-erase_self k m = ground (arith, lookup-erase k k m, text_eq_iff k k)

  pub lookup-insert_ne :
      (k j : Text) (v : V) (m : Map V) → k ≢ j → lookup j (insert k v m) ≡ lookup j m
  lookup-insert_ne k j v m h = ground (arith, lookup-insert k j v m, text_eq_iff k j)

  pub lookup-erase_ne : (k j : Text) (m : Map V) → k ≢ j → lookup j (erase k m) ≡ lookup j m
  lookup-erase_ne k j m h = ground (arith, lookup-erase k j m, text_eq_iff k j)

  -- Every key stands once, which `insert` and `erase` keep.
  abbrev pub IsMap : Map V → Type ℓ
  IsMap [] = Unit
  IsMap ((k, v) ∷ m) = (lookup k m ≡ none) × IsMap m

  pub insert-IsMap : (k : Text) (v : V) (m : Map V) → IsMap m → IsMap (insert k v m)
  unfolding insert lookup
  insert-IsMap k v [] h = ground arith
  insert-IsMap k v ((j, w) ∷ m) h =
      ground (arith, text_eq_iff j k, text_eq_iff k j, lookup-insert k j v m, insert-IsMap k v m)

  pub erase-IsMap : (k : Text) (m : Map V) → IsMap m → IsMap (erase k m)
  unfolding erase
  erase-IsMap k [] h = h
  erase-IsMap k ((j, w) ∷ m) h = ground (arith, lookup-erase k j m, erase-IsMap k m)

  pub length-insert_new :
      (k : Text) (v : V) (m : Map V) → lookup k m ≡ none → length (insert k v m) ≡ length m + 1
  unfolding insert lookup
  length-insert_new k v [] h = ground arith
  length-insert_new k v ((j, w) ∷ m) h = ground (arith, length-insert_new k v m)

  pub length-insert_old :
      (k : Text) (v w : V) (m : Map V) → lookup k m ≡ some w → length (insert k v m) ≡ length m
  unfolding insert lookup
  length-insert_old k v w [] h = cc
  length-insert_old k v w ((j, x) ∷ m) h = ground (arith, length-insert_old k v w m)

  pub erase_absent : (k : Text) (m : Map V) → lookup k m ≡ none → erase k m ≡ m
  unfolding erase lookup
  erase_absent k [] h = refl
  erase_absent k ((j, w) ∷ m) h = ground (arith, erase_absent k m)

  pub length-erase :
      (k : Text) (w : V) (m : Map V)
      → IsMap m
      → lookup k m ≡ some w
      → length (erase k m) + 1 ≡ length m
  unfolding erase lookup
  length-erase k w [] d h = cc
  length-erase k w ((j, x) ∷ m) d h =
      ground (arith, text_eq_iff j k, erase_absent k m, length-erase k w m)

  pub keys-insert_new :
      (k : Text) (v : V) (m : Map V) → lookup k m ≡ none → keys (insert k v m) ≡ keys m ++ k ∷ []
  unfolding insert lookup
  keys-insert_new k v [] h = refl
  keys-insert_new k v ((j, w) ∷ m) h = ground (arith, keys-insert_new k v m)

  pub keys-insert_old :
      (k : Text) (v w : V) (m : Map V) → lookup k m ≡ some w → keys (insert k v m) ≡ keys m
  unfolding insert lookup
  keys-insert_old k v w [] h = cc
  keys-insert_old k v w ((j, x) ∷ m) h = ground (arith, text_eq_iff j k, keys-insert_old k v w m)

  -- Every key of the map has a value.
  pub lookup_of_keys :
      (m : Map V) (i : ℕ) (k : Text)
      → get_elem? (keys m) i ≡ some k
      → (v : V) × (lookup k m ≡ some v)
  unfolding lookup
  lookup_of_keys [] i k h = cc
  lookup_of_keys ((j, w) ∷ m) zero k h = (w, ground (arith, text_eq_iff j k))
  lookup_of_keys ((j, w) ∷ m) (suc i) k h = elim (Bool-cases (text_eq j k)) [
    | inl e ↦ (w, rw e)
    | inr e ↦ let (v, found) = lookup_of_keys m i k h in (v, rw e found)
  ]

  pub keys-erase :
      (m : Map V) (i : ℕ) (k : Text)
      → IsMap m
      → get_elem? (keys m) i ≡ some k
      → keys (erase k m) ≡ take i (keys m) ++ drop (suc i) (keys m)
  unfolding erase
  keys-erase [] i k d h = cc
  keys-erase ((j, w) ∷ m) zero k d h =
      ground
        (arith, text_eq_iff j k, erase_absent k m, subst (λ l. lookup l m ≡ none) (key_eq h) d.0)
  keys-erase ((j, w) ∷ m) (suc i) k d h =
      let (v, found) = lookup_of_keys m i k h in ground (arith, text_eq_iff j k, keys-erase m i k)

  pub contains-keys : (k : Text) (m : Map V) → contains k (keys m) ≡ is_some (lookup k m)
  unfolding lookup
  contains-keys k [] = refl
  contains-keys k ((j, w) ∷ m) = ground (arith, contains-keys k m)

  pub length-keys : (m : Map V) → length (keys m) ≡ length m
  length-keys [] = refl
  length-keys ((j, w) ∷ m) = ap suc (length-keys m)

  pub length-erase_le : (k : Text) (m : Map V) → length (erase k m) ≤ length m
  unfolding erase
  length-erase_le k [] = omega arith
  length-erase_le k ((j, w) ∷ m) = ground (arith, length-erase_le k m)

  -- The first value of the two.
  abbrev pub or_else : Option V → Option V → Option V
  or_else (some a) o = some a
  or_else none o = o

  pub lookup-append :
      (k : Text) (m n : Map V) → lookup k (m ++ n) ≡ or_else (lookup k m) (lookup k n)
  unfolding lookup
  lookup-append k [] n = refl
  lookup-append k ((j, w) ∷ m) n = ground (arith, lookup-append k m n)

  pub snoc-IsMap :
      (k : Text) (v : V) (m : Map V) → IsMap m → lookup k m ≡ none → IsMap (m ++ (k, v) ∷ [])
  unfolding lookup
  snoc-IsMap k v [] d h = (refl, tt)
  snoc-IsMap k v ((j, w) ∷ m) d h =
      ground
        (arith, text_eq_iff j k, text_eq_iff k j, lookup-append j m ((k, v) ∷ []), snoc-IsMap k v m)

  pub keys-append : (m n : Map V) → keys (m ++ n) ≡ keys m ++ keys n
  keys-append [] n = refl
  keys-append ((j, w) ∷ m) n = ap (◌∷◌ j) (keys-append m n)
