-- ===== src/Cslider/Same.antt =====
-- What no event changes in the slider of assets/js/jquery.cslider.js.
use twitter_client_server.Prelude.{
  ℕ, ◌≡◌, Option, none, some, List, [], ◌∷◌, arith, inl, inr, Option-cases,
}
use twitter_client_server.Prelude.Int.{ℤ}
use twitter_client_server.Browser.{find}
use twitter_client_server.Cslider.{
  Direction, next, Slider, navigate, start_slideshow, stop_slideshow, next_page, page, tick,
}
use twitter_client_server.Cslider.Frame.{navigate_refused, navigate_accepted}
use twitter_client_server.Cslider.Events.{
  click_next, click_prev, on_tick, on_timer, on_animated, on_animation_end, on_transition_end,
  Event, click_dot, call_page, click_arrow_next, click_arrow_prev, timer, animated, elapsed,
  animation_ended, transition_ended, step, run,
}

-- What no event changes: the browser's abilities and the listener that was registered for them.
pub record Same (s t : Slider) : Type 0 where
  pub end_listener : t.end_listener ≡ s.end_listener
  pub css_animations : t.css_animations ≡ s.css_animations

Same-trans : {s t u : Slider} → Same s t → Same t u → Same s u
Same-trans a b = ground arith

pub navigate-Same : (i : ℤ) (d : Option Direction) (s : Slider) → Same s (navigate i d s)
navigate-Same i d s = ground (arith, navigate_refused i d s, navigate_accepted i d s)

stop_slideshow-Same : (s : Slider) → Same s (stop_slideshow s)
unfolding stop_slideshow
stop_slideshow-Same s = ground arith

after_stop-Same :
    (i : ℤ) (d : Option Direction) (s : Slider) → Same s (navigate i d (stop_slideshow s))
after_stop-Same i d s = Same-trans (stop_slideshow-Same s) (navigate-Same i d (stop_slideshow s))

page-Same : (i : ℤ) (s : Slider) → Same s (page i s)
unfolding page
page-Same i s = ground (arith, after_stop-Same i none s)

on_tick-Same : (s : Slider) → Same s (on_tick s)
unfolding on_tick start_slideshow
on_tick-Same s = ground (arith, navigate-Same (next_page s) (some next) s)

on_timer-Same : (k : ℕ) (s : Slider) → Same s (on_timer k s)
unfolding on_timer
on_timer-Same k s = elim (Option-cases (find k s.timers.pending)) [
  | inl e ↦ rw (e, on_timer) (ground arith)
  | inr (tick, e) ↦ rw (e, on_timer) (ground (arith, on_tick-Same (elapsed k s)))
]

pub step-Same : (s : Slider) (e : Event) → Same s (step s e)
unfolding step click_next click_prev on_animated on_animation_end on_transition_end
step-Same s (click_dot i) = page-Same i s
step-Same s (call_page i) = page-Same i s
step-Same s click_arrow_next = after_stop-Same _ _ s
step-Same s click_arrow_prev = after_stop-Same _ _ s
step-Same s (timer h) = on_timer-Same h s
step-Same s (animated k) = ground arith
step-Same s (animation_ended name) = ground arith
step-Same s (transition_ended own) = ground arith

pub run-Same : (s : Slider) (es : List Event) → Same s (run s es)
unfolding run
run-Same s [] = ground arith
run-Same s (e ∷ es) = Same-trans (step-Same s e) (run-Same (step s e) es)
