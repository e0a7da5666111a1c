-- ===== src/Executor/Cleanup.antt =====
-- The clean-up of the handlers of a step.
use aline_engine.Base.{
  ℕ, zero, suc, ◌≡◌, refl, ap, sym, ◌∙◌, some, List, [], ◌∷◌, ◌++◌, arith, length, length-append,
  map, Option-cases, inl, inr,
}
use mathlib.Core.List.{reverse, append_assoc, append-nil, reverse-cons, reverse-reverse}
use aline_engine.Utils.Stack.{push, pop, pop-push}
use aline_engine.Executor.Run.{HandlerId, Event, post_called, Run, pop_all}

-- The clean-up changes the stack and the events alone.
pub pop_all-status : (fuel : ℕ) (r : Run) → (pop_all fuel r).status ≡ r.status
unfolding pop_all
pop_all-status zero r = refl
pop_all-status (suc fuel) r = elim (Option-cases (pop r.stack)) [
  | inl e ↦ rw (e, pop_all)
  | inr ((h, rest), e) ↦
      rw (e, pop_all)
        (pop_all-status fuel (record r { stack = rest; events = r.events ++ post_called h ∷ [] }))
]

pub pop_all-stages : (fuel : ℕ) (r : Run) → (pop_all fuel r).stages ≡ r.stages
unfolding pop_all
pop_all-stages zero r = refl
pop_all-stages (suc fuel) r = elim (Option-cases (pop r.stack)) [
  | inl e ↦ rw (e, pop_all)
  | inr ((h, rest), e) ↦
      rw (e, pop_all)
        (pop_all-stages fuel (record r { stack = rest; events = r.events ++ post_called h ∷ [] }))
]

abbrev popped : List HandlerId → List Event → Run → Run
popped below posts r = record r { stack = record { elements = below }; events = r.events ++ posts }

pop_step :
    (fuel : ℕ) (r : Run) (h : HandlerId) (below : List HandlerId)
    → r.stack.elements ≡ below ++ h ∷ []
    → pop_all (suc fuel) r ≡ pop_all fuel (popped below (post_called h ∷ []) r)
unfolding pop_all
pop_step fuel r h below e = rw (top, pop_all)
  where
    as_push : r.stack ≡ push h (record { elements = below })
    as_push = unfold push in λ i. record { elements = e i }

    top : pop r.stack ≡ some (h, record { elements = below })
    top = ap pop as_push ∙ pop-push h (record { elements = below })

pop_all_from :
    (hs : List HandlerId) (r : Run)
    → r.stack.elements ≡ reverse hs
    → pop_all (length hs) r ≡ popped [] (map post_called hs) r
pop_all_from [] r e =
    unfold pop_all in
    λ i. record r { stack = record { elements = e i }; events = sym (append-nil r.events) i }
pop_all_from (h ∷ hs) r e =
    pop_step (length hs) r h (reverse hs) (e ∙ reverse-cons h hs)
    ∙ pop_all_from hs (popped (reverse hs) (post_called h ∷ []) r) refl
    ∙ ap (λ es. record r { stack = record { elements = [] }; events = es })
        (append_assoc r.events (post_called h ∷ []) (map post_called hs))

length-reverse : (hs : List HandlerId) → length (reverse hs) ≡ length hs
length-reverse [] = refl
length-reverse (h ∷ hs) =
    omega
      (arith, ap length (reverse-cons h hs), length-append (reverse hs) (h ∷ []), length-reverse hs)

-- The clean-up after a step calls the `Post` of every handler on the stack, once, from the top of
-- the stack to its bottom, and leaves the stack empty. Nothing else changes.
pub pop_all_lem :
    (r : Run)
    → pop_all (length r.stack.elements) r ≡ record r {
      stack = record { elements = [] };
      events = r.events ++ map post_called (reverse r.stack.elements);
    }
pop_all_lem r =
    ap (λ n. pop_all n r) (sym (length-reverse r.stack.elements))
    ∙ pop_all_from (reverse r.stack.elements) r (sym (reverse-reverse r.stack.elements))
