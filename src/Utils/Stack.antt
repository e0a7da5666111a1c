-- ===== src/Utils/Stack.antt =====
-- utils/stack.go: a stack on a slice, whose top is the last element.
use aline_engine.Base.{
  ◌≡◌, Option, none, some, Bool, true, false, List, [], ◌∷◌, ◌++◌, arith, last?, init, last?-snoc,
  init-snoc,
}

pub record Stack {ℓ} (A : Type ℓ) : Type ℓ where
  pub elements : List A

module _ {ℓ} {A : Type ℓ} where
  unfoldable pub push : A → Stack A → Stack A
  push value s = record { elements = s.elements ++ (value ∷ []) }

  abbrev with_rest : Option A → List A → Option (A × Stack A)
  with_rest none l = none
  with_rest (some a) l = some (a, record { elements = l })

  -- `none` is the error "empty stack", which leaves the stack as it is.
  pub pop : Stack A → Option (A × Stack A)
  pop s = with_rest (last? s.elements) (init s.elements)

  abbrev nil? : List A → Bool
  nil? [] = true
  nil? (x ∷ l) = false

  unfoldable pub is_empty : Stack A → Bool
  is_empty s = nil? s.elements

  -- What was pushed last is popped first, and the rest is the stack before the push.
  pub pop-push : (value : A) (s : Stack A) → pop (push value s) ≡ some (value, s)
  unfolding pop push
  pop-push value s = ground (arith, last?-snoc s.elements value, init-snoc s.elements value)
