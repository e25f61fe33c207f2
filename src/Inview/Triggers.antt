-- ===== src/Inview/Triggers.antt =====
-- What the events of assets/js/jquery.inview.js tell an element.
use twitter_client_server.Prelude.{
  ℕ, ◌+◌, ◌≡◌, ◌≢◌, refl, Bool, true, false, not, List, [], ◌∷◌, if◌then◌else◌, ltb, arith, All,
  subst,
}
use twitter_client_server.Inview.{
  Window, viewport_height, scroll_top, Watched, Box, is_outside, told, check, on_scroll, watch, run,
}

-- Events, the newest first, that tell in turn that the element came and that it left; the first told
-- that it came, and the newest is `v`.
abbrev pub InTurn : Bool → List Bool → Type 0
InTurn v [] = v ≡ false
InTurn v (x ∷ l) = (x ≡ v) × InTurn (not v) l

abbrev pub IsInTurn : Watched → Type 0
IsInTurn e = InTurn e.inview e.triggered

told-IsInTurn : (v : Bool) (e : Watched) → e.inview ≡ not v → IsInTurn e → IsInTurn (told v e)
told-IsInTurn v e q h = (refl, subst (λ (b : Bool). InTurn b e.triggered) q h)

if-IsInTurn :
    (b : Bool) (s t : Watched)
    → (b ≡ true → IsInTurn s)
    → IsInTurn t
    → IsInTurn (if b then s else t)
if-IsInTurn true s t v w = v refl
if-IsInTurn false s t v w = w

check-IsInTurn : (s h : ℕ) (b : Box) (e : Watched) → IsInTurn e → IsInTurn (check s h b e)
unfolding check
check-IsInTurn s h b e v =
    if-IsInTurn (is_outside s h b) _ _
      (λ o. if-IsInTurn e.inview (told false e) e (λ q. told-IsInTurn false e q v) v)
      (if-IsInTurn (ltb s (b.top + b.height)) _ e
        (λ o.
          if-IsInTurn (not e.inview) (told true e) e (λ q. told-IsInTurn true e (ground arith) v) v)
        v)

on_scroll-AllInTurn :
    (w : Window) (boxes : ℕ → Box) (es : List Watched)
    → All IsInTurn es
    → All IsInTurn (on_scroll w boxes es)
unfolding on_scroll
on_scroll-AllInTurn w boxes [] v = tt
on_scroll-AllInTurn w boxes (e ∷ es) v = (
  check-IsInTurn (scroll_top w) (viewport_height w) (boxes e.number) e v.0,
  on_scroll-AllInTurn w boxes es v.1,
)

run-AllInTurn :
    (es : List Watched) (l : List (Window × (ℕ → Box))) → All IsInTurn es → All IsInTurn (run es l)
unfolding run
run-AllInTurn es [] v = v
run-AllInTurn es ((w, boxes) ∷ l) v =
    run-AllInTurn (on_scroll w boxes es) l (on_scroll-AllInTurn w boxes es v)

watch-AllInTurn : (ns : List ℕ) → All IsInTurn (watch ns)
watch-AllInTurn [] = tt
watch-AllInTurn (n ∷ ns) = (refl, watch-AllInTurn ns)

-- Whatever is scrolled, and however the page is laid out meanwhile, each element is told in turn that
-- it came into the window and that it left, first that it came; what it was told last is its data.
pub run-watch-AllInTurn :
    (ns : List ℕ) (l : List (Window × (ℕ → Box))) → All IsInTurn (run (watch ns) l)
run-watch-AllInTurn ns l = run-AllInTurn (watch ns) l (watch-AllInTurn ns)

check-inview :
    (s h : ℕ) (b : Box) (e : Watched)
    → s ≢ b.top + b.height
    → (check s h b e).inview ≡ not (is_outside s h b)
unfolding check
check-inview s h b e n = ground arith

check-number : (s h : ℕ) (b : Box) (e : Watched) → (check s h b e).number ≡ e.number
unfolding check
check-number s h b e = ground arith

abbrev pub IsUpToDate : Window → (ℕ → Box) → Watched → Type 0
IsUpToDate w boxes e =
    e.inview ≡ not (is_outside (scroll_top w) (viewport_height w) (boxes e.number))

-- After a scroll every element's data say whether a part of it is in the window, if the window does
-- not begin exactly where an element ends.
pub on_scroll-AllUpToDate :
    (w : Window) (boxes : ℕ → Box) (es : List Watched)
    → ((n : ℕ) → scroll_top w ≢ (boxes n).top + (boxes n).height)
    → All (IsUpToDate w boxes) (on_scroll w boxes es)
unfolding on_scroll
on_scroll-AllUpToDate w boxes [] n = tt
on_scroll-AllUpToDate w boxes (e ∷ es) n = (
  rw (check-number (scroll_top w) (viewport_height w) (boxes e.number) e)
      (check-inview (scroll_top w) (viewport_height w) (boxes e.number) e (n e.number)),
  on_scroll-AllUpToDate w boxes es n,
)
