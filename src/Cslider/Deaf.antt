-- ===== src/Cslider/Deaf.antt =====
-- Browsers in which the lock `isAnimating` of assets/js/jquery.cslider.js is never released.
use twitter_client_server.Prelude.{
  ℕ, zero, suc, ◌≡◌, refl, true, false, Option, none, some, List, [], ◌∷◌, arith, inl, inr,
  Option-cases, ◌∙◌,
}
use twitter_client_server.Prelude.Int.{ℤ}
use twitter_client_server.Browser.{find}
use twitter_client_server.Cslider.{
  Overrides, Direction, next, Slider, navigate, start_slideshow, stop_slideshow, next_page, page,
  tick, no_listener,
}
use twitter_client_server.Cslider.Lock.{step-current_locked, navigate_locked}
use twitter_client_server.Cslider.Events.{
  Modernizr, init, click_next, click_prev, on_tick, on_timer, on_animated, on_animation_end,
  on_transition_end, Event, click_dot, call_page, click_arrow_next, click_arrow_prev, timer,
  animated, elapsed, animation_ended, transition_ended, step, run, take_animation,
}
use twitter_client_server.Cslider.Same.{navigate-Same}

-- A browser that animates but reports the end of no transition.
record IsDeaf (s : Slider) : Type 0 where
  css_animations : s.css_animations ≡ true
  end_listener : s.end_listener ≡ no_listener
  animations : s.animations ≡ []

navigate-animations :
    (i : ℤ) (d : Option Direction) (s : Slider)
    → s.css_animations ≡ true
    → (navigate i d s).animations ≡ s.animations
unfolding navigate
navigate-animations i d s h = ground arith

navigate-IsDeaf : (i : ℤ) (d : Option Direction) (s : Slider) → IsDeaf s → IsDeaf (navigate i d s)
navigate-IsDeaf i d s v =
    ground (arith, navigate-Same i d s, navigate-animations i d s v.css_animations)

stop_slideshow-IsDeaf : (s : Slider) → IsDeaf s → IsDeaf (stop_slideshow s)
unfolding stop_slideshow
stop_slideshow-IsDeaf s v = ground arith

page-IsDeaf : (i : ℤ) (s : Slider) → IsDeaf s → IsDeaf (page i s)
unfolding page
page-IsDeaf i s v =
    ground (arith, navigate-IsDeaf i none (stop_slideshow s) (stop_slideshow-IsDeaf s v))

on_tick-IsDeaf : (s : Slider) → IsDeaf s → IsDeaf (on_tick s)
unfolding on_tick start_slideshow
on_tick-IsDeaf s v = ground (arith, navigate-IsDeaf (next_page s) (some next) s v)

on_timer-IsDeaf : (k : ℕ) (s : Slider) → IsDeaf s → IsDeaf (on_timer k s)
unfolding on_timer
on_timer-IsDeaf k s v = elim (Option-cases (find k s.timers.pending)) [
  | inl e ↦ rw (e, on_timer) v
  | inr (tick, e) ↦ rw (e, on_timer) (on_tick-IsDeaf (elapsed k s) (ground arith))
]

pub take_animation-nil : (k : ℕ) → take_animation k [] ≡ none
unfolding take_animation
take_animation-nil zero = refl
take_animation-nil (suc k) = refl

on_animated-IsDeaf : (k : ℕ) (s : Slider) → IsDeaf s → IsDeaf (on_animated k s)
unfolding on_animated
on_animated-IsDeaf k s v =
    let e : take_animation k s.animations ≡ none = rw v.animations (take_animation-nil k) in
    rw (e, on_animated) v

step-IsDeaf : (s : Slider) (e : Event) → IsDeaf s → IsDeaf (step s e)
unfolding step click_next click_prev on_animated on_animation_end on_transition_end
step-IsDeaf s (click_dot i) v = page-IsDeaf i s v
step-IsDeaf s (call_page i) v = page-IsDeaf i s v
step-IsDeaf s click_arrow_next v =
    navigate-IsDeaf _ _ (stop_slideshow s) (stop_slideshow-IsDeaf s v)
step-IsDeaf s click_arrow_prev v =
    navigate-IsDeaf _ _ (stop_slideshow s) (stop_slideshow-IsDeaf s v)
step-IsDeaf s (timer h) v = on_timer-IsDeaf h s v
step-IsDeaf s (animated k) v = on_animated-IsDeaf k s v
step-IsDeaf s (animation_ended name) v = ground arith
step-IsDeaf s (transition_ended own) v = ground arith

run-IsDeaf : (s : Slider) (es : List Event) → IsDeaf s → IsDeaf (run s es)
unfolding run
run-IsDeaf s [] v = v
run-IsDeaf s (e ∷ es) v = run-IsDeaf (step s e) es (step-IsDeaf s e v)

init-IsDeaf :
    (m : Modernizr) (count : ℕ) (o : Overrides)
    → m.cssanimations ≡ true
    → m.csstransitions ≡ false
    → IsDeaf (init m count o)
unfolding init
init-IsDeaf m count o a t = ground arith

after_stop_deaf :
    (i : ℤ) (d : Option Direction) (s : Slider)
    → s.is_animating ≡ true
    → (navigate i d (stop_slideshow s)).is_animating ≡ true
unfolding stop_slideshow
after_stop_deaf i d s h = ground (arith, navigate_locked i d (stop_slideshow s))

page_deaf : (i : ℤ) (s : Slider) → s.is_animating ≡ true → (page i s).is_animating ≡ true
unfolding page
page_deaf i s h = ground (arith, after_stop_deaf i none s h)

on_tick_deaf : (s : Slider) → s.is_animating ≡ true → (on_tick s).is_animating ≡ true
unfolding on_tick start_slideshow
on_tick_deaf s h = ground (arith, navigate_locked (next_page s) (some next) s h)

on_timer_deaf : (k : ℕ) (s : Slider) → s.is_animating ≡ true → (on_timer k s).is_animating ≡ true
unfolding on_timer
on_timer_deaf k s h = elim (Option-cases (find k s.timers.pending)) [
  | inl e ↦ rw (e, on_timer) h
  | inr (tick, e) ↦ rw (e, on_timer) (on_tick_deaf (elapsed k s) h)
]

-- For a slider that hears of no end, the lock stays.
step_deaf :
    (s : Slider) (e : Event) → IsDeaf s → s.is_animating ≡ true → (step s e).is_animating ≡ true
unfolding step click_next click_prev on_animated on_animation_end on_transition_end
step_deaf s (click_dot i) v h = page_deaf i s h
step_deaf s (call_page i) v h = page_deaf i s h
step_deaf s click_arrow_next v h = after_stop_deaf _ _ s h
step_deaf s click_arrow_prev v h = after_stop_deaf _ _ s h
step_deaf s (timer k) v h = on_timer_deaf k s h
step_deaf s (animated k) v h =
    let e : take_animation k s.animations ≡ none = rw v.animations (take_animation-nil k) in
    rw (e, on_animated) h
step_deaf s (animation_ended name) v h = ground arith
step_deaf s (transition_ended own) v h = ground arith

run_deaf :
    (s : Slider) (es : List Event)
    → IsDeaf s
    → s.is_animating ≡ true
    → (run s es).current ≡ s.current
unfolding run
run_deaf s [] v h = refl
run_deaf s (e ∷ es) v h =
    run_deaf (step s e) es (step-IsDeaf s e v) (step_deaf s e v h) ∙ step-current_locked s e h

-- In a browser with CSS animations and without CSS transitions the first navigation is the last:
-- from the moment that an animation has begun, no event ever changes the current slide.
pub run_without_transitions :
    (m : Modernizr) (count : ℕ) (o : Overrides) (es later : List Event)
    → m.cssanimations ≡ true
    → m.csstransitions ≡ false
    → (run (init m count o) es).is_animating ≡ true
    → (run (run (init m count o) es) later).current ≡ (run (init m count o) es).current
run_without_transitions m count o es later a t h =
    run_deaf _ later (run-IsDeaf _ es (init-IsDeaf m count o a t)) h
