-- ===== src/Cslider/Lock.antt =====
-- The lock `isAnimating` of assets/js/jquery.cslider.js: what it keeps out.
use twitter_client_server.Prelude.{
  ℕ, ◌≡◌, refl, Bool, true, Option, none, some, arith, inl, inr, Option-cases, ◌||◌,
}
use twitter_client_server.Prelude.Int.{ℤ}
use twitter_client_server.Browser.{find}
use twitter_client_server.Cslider.{
  Direction, next, Slider, navigate, start_slideshow, stop_slideshow, next_page, page, tick,
}
use twitter_client_server.Cslider.Frame.{navigate_refused}
use twitter_client_server.Cslider.Events.{
  click_next, click_prev, on_tick, on_timer, on_animated, on_animation_end, on_transition_end,
  Event, click_dot, call_page, click_arrow_next, click_arrow_prev, timer, animated, animation_ended,
  transition_ended, step,
}

or_true : (b c : Bool) → c ≡ true → (b || c) ≡ true
or_true b c h = ground arith

pub navigate_locked :
    (i : ℤ) (d : Option Direction) (s : Slider) → s.is_animating ≡ true → navigate i d s ≡ s
navigate_locked i d s h = navigate_refused i d s (or_true _ s.is_animating h)

stop_slideshow-current : (s : Slider) → (stop_slideshow s).current ≡ s.current
unfolding stop_slideshow
stop_slideshow-current s = ground arith

stop_slideshow-is_animating : (s : Slider) → (stop_slideshow s).is_animating ≡ s.is_animating
unfolding stop_slideshow
stop_slideshow-is_animating s = ground arith

after_stop :
    (i : ℤ) (d : Option Direction) (s : Slider)
    → s.is_animating ≡ true
    → (navigate i d (stop_slideshow s)).current ≡ s.current
after_stop i d s h = ground (
  arith,
  navigate_locked i d (stop_slideshow s),
  stop_slideshow-current s,
  stop_slideshow-is_animating s,
)

on_tick_locked : (s : Slider) → s.is_animating ≡ true → (on_tick s).current ≡ s.current
unfolding on_tick start_slideshow
on_tick_locked s h = ground (arith, navigate_locked (next_page s) (some next) s)

on_timer_locked : (k : ℕ) (s : Slider) → s.is_animating ≡ true → (on_timer k s).current ≡ s.current
unfolding on_timer
on_timer_locked k s h = elim (Option-cases (find k s.timers.pending)) [
  | inl e ↦ rw (e, on_timer) refl
  | inr (tick, e) ↦ rw (e, on_timer) (on_tick_locked _ h)
]

page_locked : (i : ℤ) (s : Slider) → s.is_animating ≡ true → (page i s).current ≡ s.current
unfolding page
page_locked i s h = ground (arith, after_stop i none s h)

-- While an animation runs no event changes the current slide: clicks, calls of `page` and ticks of
-- the slideshow are refused, and the ends of animations change other things.
pub step-current_locked :
    (s : Slider) (e : Event) → s.is_animating ≡ true → (step s e).current ≡ s.current
unfolding step click_next click_prev on_animated on_animation_end on_transition_end
step-current_locked s (click_dot i) h = page_locked i s h
step-current_locked s (call_page i) h = page_locked i s h
step-current_locked s click_arrow_next h = after_stop _ _ s h
step-current_locked s click_arrow_prev h = after_stop _ _ s h
step-current_locked s (timer k) h = on_timer_locked k s h
step-current_locked s (animated k) h = ground arith
step-current_locked s (animation_ended name) h = ground arith
step-current_locked s (transition_ended own) h = ground arith
