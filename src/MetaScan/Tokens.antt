-- ===== src/MetaScan/Tokens.antt =====
-- Whose answer a request of `MetaScanCheckAction` returns.
use aline_engine.Base.{ℕ, ◌≡◌, refl, ap, subst, ◌∙◌, true, [], arith, ◌==◌, Bool-cases, inl, inr}
use aline_engine.Base.Text.{Text, text_eq}
use aline_engine.MetaScan.Requests.{
  Texts, request_with_token, after_first, after_second, with_token, with_new_token, checked,
  meta_scan_http_request_token,
}
use aline_engine.MetaScan.Types.{Http, Outcome, replied, unreachable, MetaScan}
use aline_engine.Storage.Os.{Fallible, ok, failed}

module _ (http : Http) (user password : Text) {R : Type 0} (message : R → Text) (texts : Texts)
    (call : (token : Text) → http.Server → Outcome R × http.Server) where
  same : (a b : ℕ) → (a == b) ≡ true → a ≡ b
  same a b h = ground arith

  -- Where an answer is returned, the service gave it, with the status 200, to the token held then.
  abbrev IsAnswer : Fallible R × MetaScan × http.Server → Type 0
  IsAnswer (failed e, m, s) = Unit {0}
  IsAnswer (ok r, m, s) = (s0 : http.Server) × (call m.scan_token s0 ≡ (replied 200 r, s))

  checked-IsAnswer :
      (code : ℕ) (r : R) (m : MetaScan) (s0 s : http.Server)
      → call m.scan_token s0 ≡ (replied code r, s)
      → IsAnswer (checked http user password message texts call code r, m, s)
  checked-IsAnswer code r m s0 s h = elim (Bool-cases (code == 200)) [
    | inl e ↦ rw e (s0, h ∙ ap (λ (c : ℕ). (replied c r, s)) (same code 200 e))
    | inr e ↦ rw e tt
  ]

  after_second-IsAnswer :
      (m : MetaScan) (s0 : http.Server) (o : Outcome R × http.Server)
      → call m.scan_token s0 ≡ o
      → IsAnswer (after_second http user password message texts call m o)
  after_second-IsAnswer m s0 (unreachable e, s) h = tt
  after_second-IsAnswer m s0 (replied code r, s) h = elim (Bool-cases (code == 401)) [
    | inl e ↦ rw e tt
    | inr e ↦ rw e (checked-IsAnswer code r m s0 s h)
  ]

  with_token-IsAnswer :
      (m : MetaScan) (t : Text × http.Server)
      → IsAnswer (with_token http user password message texts call m t)
  with_token-IsAnswer m (token, s) = elim (Bool-cases (text_eq token [])) [
    | inl e ↦ rw e tt
    | inr e ↦
        rw e
          (after_second-IsAnswer (with_new_token http user password token m) s (call token s) refl)
  ]

  after_first-IsAnswer :
      (m : MetaScan) (s0 : http.Server) (o : Outcome R × http.Server)
      → call m.scan_token s0 ≡ o
      → IsAnswer (after_first http user password message texts call m o)
  after_first-IsAnswer m s0 (unreachable e, s) h = tt
  after_first-IsAnswer m s0 (replied code r, s) h = elim (Bool-cases (code == 401)) [
    | inl e ↦ rw e (with_token-IsAnswer m (meta_scan_http_request_token http user password s))
    | inr e ↦ rw e (checked-IsAnswer code r m s0 s h)
  ]

  -- A request that succeeds returns what the service answered, with the status 200, to the token
  -- that the action holds afterwards, be it the old one or a new one.
  pub request_with_token-answer :
      (m m' : MetaScan) (s s' : http.Server) (r : R)
      → request_with_token http user password message texts call m s ≡ (ok r, m', s')
      → (s0 : http.Server) × (call m'.scan_token s0 ≡ (replied 200 r, s'))
  unfolding request_with_token
  request_with_token-answer m m' s s' r h =
      subst (λ (a : Fallible R × MetaScan × http.Server). IsAnswer a) h
        (after_first-IsAnswer m s (call m.scan_token s) refl)
