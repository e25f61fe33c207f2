-- ===== src/Debounce/Once.antt =====
-- A debounced resize happens once after a burst of resizes.
use twitter_client_server.Prelude.{
  ℕ, ◌≡◌, refl, Bool, true, false, Option, none, some, List, [], ◌∷◌, ◌⊎◌, inl, inr, if◌then◌else◌,
  arith, ap, ◌∙◌, Option-cases,
}
use twitter_client_server.Browser.{Timers, set_timeout, remove, clear_timeout, find}
use twitter_client_server.Debounce.{Debounced, fresh, smartresize, debouncedresize, dispatch}

-- A resize of the window, with the arguments of its handler, or a timer that runs out.
pub data Event {ℓ} (A : Type ℓ) : Type ℓ where
  resize : A → Bool → Event A
  timer : ℕ → Event A

module _ {ℓ} {A : Type ℓ} where
  abbrev pub step_smart : Debounced A → Event A → Debounced A
  step_smart d (resize a b) = smartresize a b d
  step_smart d (timer h) = dispatch h d

  abbrev pub step_debounced : Debounced A → Event A → Debounced A
  step_debounced d (resize a b) = debouncedresize a b d
  step_debounced d (timer h) = dispatch h d

  unfoldable pub run :
      (Debounced A → Event A → Debounced A) → Debounced A → List (Event A) → Debounced A
  run f d [] = d
  run f d (e ∷ es) = run f (f d e) es

  -- At most one callback is pending, and it is the one whose handle is kept.
  abbrev pub IsSingle : Debounced A → Type ℓ
  IsSingle d =
      (d.timers.pending ≡ [])
      ⊎ ((h : ℕ) × (c : A × ℕ) × (d.resize_timeout ≡ some h) × (d.timers.pending ≡ (h, c) ∷ []))

  remove_only : (h : ℕ) (c : A × ℕ) → remove h ((h, c) ∷ []) ≡ []
  unfolding remove
  remove_only h c = ground arith

  clear_idle :
      (o : Option ℕ) (t : Timers (A × ℕ)) → t.pending ≡ [] → (clear_timeout o t).pending ≡ []
  unfolding clear_timeout remove
  clear_idle none t e = e
  clear_idle (some h) t e = ap (remove h) e

  clear_only :
      (o : Option ℕ) (t : Timers (A × ℕ)) (h : ℕ) (c : A × ℕ)
      → o ≡ some h
      → t.pending ≡ (h, c) ∷ []
      → (clear_timeout o t).pending ≡ []
  unfolding clear_timeout
  clear_only o t h c k e =
      ap (λ (p : Option ℕ). (clear_timeout p t).pending) k ∙ ap (remove h) e ∙ remove_only h c

  cleared_pending :
      (d : Debounced A) → IsSingle d → (clear_timeout d.resize_timeout d.timers).pending ≡ []
  cleared_pending d (inl e) = clear_idle d.resize_timeout d.timers e
  cleared_pending d (inr (h, c, k, e)) = clear_only d.resize_timeout d.timers h c k e

  -- The state after an event that starts a timer: it is the only one.
  abbrev Waits : A → ℕ → Debounced A → Type ℓ
  Waits a ms d = (h : ℕ) × (d.resize_timeout ≡ some h) × (d.timers.pending ≡ (h, (a, ms)) ∷ [])

  IsSingle-of_Waits : (a : A) (ms : ℕ) (d : Debounced A) → Waits a ms d → IsSingle d
  IsSingle-of_Waits a ms d (h, k, e) = inr (h, (a, ms), k, e)

  smartresize-Waits :
      (a : A) (b : Bool) (d : Debounced A)
      → IsSingle d
      → Waits a (if b then 0 else 50) (smartresize a b d)
  unfolding smartresize set_timeout
  smartresize-Waits a b d v = (_, refl, rw (cleared_pending d v) refl)

  debouncedresize-Waits :
      (a : A) (d : Debounced A) → IsSingle d → Waits a 20 (debouncedresize a false d)
  unfolding debouncedresize set_timeout
  debouncedresize-Waits a d v = (_, refl, rw (cleared_pending d v) refl)

  debouncedresize-IsSingle :
      (a : A) (b : Bool) (d : Debounced A) → IsSingle d → IsSingle (debouncedresize a b d)
  unfolding debouncedresize
  debouncedresize-IsSingle a true d v = inl (cleared_pending d v)
  debouncedresize-IsSingle a false d v =
      IsSingle-of_Waits a 20 (debouncedresize a false d) (debouncedresize-Waits a d v)

  remove_found :
      (h : ℕ) (l : List (ℕ × (A × ℕ))) (x : A × ℕ)
      → (l ≡ []) ⊎ ((i : ℕ) × (c : A × ℕ) × (l ≡ (i, c) ∷ []))
      → find h l ≡ some x
      → remove h l ≡ []
  unfolding find remove
  remove_found h l x (inl q) e = ap (remove h) q
  remove_found h l x (inr (i, c, q)) e = ap (remove h) q ∙ ground arith

  dispatch-IsSingle : (h : ℕ) (d : Debounced A) → IsSingle d → IsSingle (dispatch h d)
  unfolding dispatch
  dispatch-IsSingle h d v = elim (Option-cases (find h d.timers.pending)) [
    | inl e ↦ rw (e, dispatch) v
    | inr (x, e) ↦ rw (e, dispatch) (inl (remove_found h d.timers.pending x (kept v) e))
  ]
    where
      kept :
          IsSingle d
          → (d.timers.pending ≡ []) ⊎ ((i : ℕ) × (c : A × ℕ) × (d.timers.pending ≡ (i, c) ∷ []))
      kept (inl q) = inl q
      kept (inr (i, c, k, q)) = inr (i, c, q)

  run_smart-IsSingle :
      (es : List (Event A)) (d : Debounced A) → IsSingle d → IsSingle (run step_smart d es)
  unfolding run
  run_smart-IsSingle [] d v = v
  run_smart-IsSingle (resize a b ∷ es) d v =
      run_smart-IsSingle es (smartresize a b d)
        (IsSingle-of_Waits a _ (smartresize a b d) (smartresize-Waits a b d v))
  run_smart-IsSingle (timer h ∷ es) d v =
      run_smart-IsSingle es (dispatch h d) (dispatch-IsSingle h d v)

  run_debounced-IsSingle :
      (es : List (Event A)) (d : Debounced A) → IsSingle d → IsSingle (run step_debounced d es)
  unfolding run
  run_debounced-IsSingle [] d v = v
  run_debounced-IsSingle (resize a b ∷ es) d v =
      run_debounced-IsSingle es (debouncedresize a b d) (debouncedresize-IsSingle a b d v)
  run_debounced-IsSingle (timer h ∷ es) d v =
      run_debounced-IsSingle es (dispatch h d) (dispatch-IsSingle h d v)

  -- Resizes, one after the other, with no time between them for a timer.
  abbrev pub burst : List A → List (Event A)
  burst [] = []
  burst (a ∷ l) = resize a false ∷ burst l

  run_smart-dispatched :
      (l : List A) (d : Debounced A) → (run step_smart d (burst l)).dispatched ≡ d.dispatched
  unfolding run smartresize
  run_smart-dispatched [] d = refl
  run_smart-dispatched (a ∷ l) d = run_smart-dispatched l (smartresize a false d)

  run_debounced-dispatched :
      (l : List A) (d : Debounced A) → (run step_debounced d (burst l)).dispatched ≡ d.dispatched
  unfolding run debouncedresize
  run_debounced-dispatched [] d = refl
  run_debounced-dispatched (a ∷ l) d = run_debounced-dispatched l (debouncedresize a false d)

  -- The last event of the burst waits for `ms`: of the whole burst it is the only one that is
  -- dispatched, and nothing else is left to happen.
  abbrev pub HappensOnce : A → ℕ → Debounced A → Debounced A → Type ℓ
  HappensOnce a ms d c =
      (c.dispatched ≡ d.dispatched)
      × (h : ℕ) × (c.timers.pending ≡ (h, (a, ms)) ∷ [])
      × ((dispatch h c).dispatched ≡ a ∷ d.dispatched)
      × ((dispatch h c).timers.pending ≡ [])

  find_only : (h : ℕ) (l : List (ℕ × (A × ℕ))) (x : A × ℕ) → l ≡ (h, x) ∷ [] → find h l ≡ some x
  unfolding find
  find_only h l x e = ap (find h) e ∙ ground arith

  once_of_Waits :
      (a : A) (ms : ℕ) (d c : Debounced A)
      → c.dispatched ≡ d.dispatched
      → Waits a ms c
      → HappensOnce a ms d c
  unfolding dispatch
  once_of_Waits a ms d c q (h, k, e) =
      let f = find_only h c.timers.pending (a, ms) e in
      (
        q,
        h,
        e,
        rw (f, dispatch) (ap (λ (l : List A). a ∷ l) q),
        rw (f, dispatch) (remove_found h c.timers.pending (a, ms) (inr (h, (a, ms), e)) f),
      )

  -- After any use of `smartresize`, a burst of resizes, one or more, leaves one timer pending, with
  -- the arguments of the last resize and 50 ms: none of the burst has been passed on, and when the
  -- timer runs out that last one is, and no timer is left.
  pub smartresize_once :
      (es : List (Event A)) (l : List A) (a : A)
      → HappensOnce a 50
          (run step_smart fresh es)
          (smartresize a false (run step_smart (run step_smart fresh es) (burst l)))
  unfolding smartresize
  smartresize_once es l a =
      let d = run step_smart fresh es in
      let c = run step_smart d (burst l) in
      once_of_Waits a 50 d (smartresize a false c) (run_smart-dispatched l d) (
        smartresize-Waits a false c
          (run_smart-IsSingle (burst l) d (run_smart-IsSingle es fresh (inl refl))))

  -- After any use of `debouncedresize`, a burst of resizes, one or more, leaves one timer pending,
  -- with the arguments of the last resize and 20 ms: none of the burst has been passed on, and when
  -- the timer runs out that last one is, and no timer is left.
  pub debouncedresize_once :
      (es : List (Event A)) (l : List A) (a : A)
      → HappensOnce a 20
          (run step_debounced fresh es)
          (debouncedresize a false (run step_debounced (run step_debounced fresh es) (burst l)))
  unfolding debouncedresize
  debouncedresize_once es l a =
      let d = run step_debounced fresh es in
      let c = run step_debounced d (burst l) in
      once_of_Waits a 20 d (debouncedresize a false c) (run_debounced-dispatched l d) (
        debouncedresize-Waits a c
          (run_debounced-IsSingle (burst l) d (run_debounced-IsSingle es fresh (inl refl))))
