-- ===== src/Cslider/Bounds.antt =====
-- The index of the current slide of the slider of assets/js/jquery.cslider.js.
use twitter_client_server.Prelude.{
  ℕ, ◌<◌, ◌≡◌, Option, none, some, List, [], ◌∷◌, arith, Bool-cases, inl, inr, Option-cases,
}
use twitter_client_server.Prelude.Int.{ℤ, ◌+ℤ◌, ◌-ℤ◌, pos_part, neg_part}
use twitter_client_server.Browser.{find}
use twitter_client_server.Cslider.{
  Overrides, Direction, next, Slider, navigate, start_slideshow, stop_slideshow, next_page,
  prev_page, page, tick,
}
use twitter_client_server.Cslider.Frame.{refuses, navigate_refused, navigate_accepted}
use twitter_client_server.Cslider.Events.{
  Modernizr, init, click_next, click_prev, on_tick, on_timer, on_animated, on_animation_end,
  on_transition_end, Event, click_dot, call_page, click_arrow_next, click_arrow_prev, timer,
  animated, animation_ended, transition_ended, step, run,
}

pub record InRange (i : ℤ) (count : ℕ) : Type 0 where
  pub nonneg : neg_part i ≡ 0
  pub below : pos_part i < count

abbrev pub CurrentInRange : Slider → Type 0
CurrentInRange s = InRange s.current s.slides_count

next_page-InRange : (s : Slider) → CurrentInRange s → InRange (next_page s) s.slides_count
unfolding ◌+ℤ◌
next_page-InRange s v = ground arith

prev_page-InRange : (s : Slider) → CurrentInRange s → InRange (prev_page s) s.slides_count
unfolding ◌-ℤ◌
prev_page-InRange s v = ground arith

navigate-InRange :
    (i : ℤ) (d : Option Direction) (s : Slider)
    → CurrentInRange s
    → InRange i s.slides_count
    → CurrentInRange (navigate i d s)
navigate-InRange i d s v w = elim (Bool-cases (refuses i s)) [
  | inl e ↦ rw (navigate_refused i d s e) v
  | inr e ↦ let m = navigate_accepted i d s e in rw (m.current, m.slides_count) w
]

stop_slideshow-InRange : (s : Slider) → CurrentInRange s → CurrentInRange (stop_slideshow s)
unfolding stop_slideshow
stop_slideshow-InRange s v = ground arith

slides_count-stop_slideshow : (s : Slider) → (stop_slideshow s).slides_count ≡ s.slides_count
unfolding stop_slideshow
slides_count-stop_slideshow s = ground arith

start_slideshow-InRange : (s : Slider) → CurrentInRange s → CurrentInRange (start_slideshow s)
unfolding start_slideshow
start_slideshow-InRange s v = v

page-InRange : (i : ℤ) (s : Slider) → CurrentInRange s → CurrentInRange (page i s)
unfolding page
page-InRange i s v =
    let w = stop_slideshow-InRange s v in
    ground (
      arith,
      slides_count-stop_slideshow s,
      λ (r : InRange i (stop_slideshow s).slides_count).
          navigate-InRange i none (stop_slideshow s) w r,
    )

on_tick-InRange : (s : Slider) → CurrentInRange s → CurrentInRange (on_tick s)
unfolding on_tick
on_tick-InRange s v = ground (
  arith,
  navigate-InRange (next_page s) (some next) s v (next_page-InRange s v),
  start_slideshow-InRange (navigate (next_page s) (some next) s),
)

on_timer-InRange : (h : ℕ) (s : Slider) → CurrentInRange s → CurrentInRange (on_timer h s)
unfolding on_timer
on_timer-InRange h s v = elim (Option-cases (find h s.timers.pending)) [
  | inl e ↦ rw (e, on_timer) v
  | inr (tick, e) ↦ rw (e, on_timer) (on_tick-InRange _ v)
]

step-InRange : (s : Slider) (e : Event) → CurrentInRange s → CurrentInRange (step s e)
unfolding step click_next click_prev on_animated on_animation_end on_transition_end
step-InRange s (click_dot i) v = page-InRange i s v
step-InRange s (call_page i) v = page-InRange i s v
step-InRange s click_arrow_next v =
    let w = stop_slideshow-InRange s v in
    navigate-InRange _ _ (stop_slideshow s) w (next_page-InRange (stop_slideshow s) w)
step-InRange s click_arrow_prev v =
    let w = stop_slideshow-InRange s v in
    navigate-InRange _ _ (stop_slideshow s) w (prev_page-InRange (stop_slideshow s) w)
step-InRange s (timer h) v = on_timer-InRange h s v
step-InRange s (animated k) v = ground arith
step-InRange s (animation_ended name) v = ground arith
step-InRange s (transition_ended own) v = ground arith

run-InRange : (s : Slider) (es : List Event) → CurrentInRange s → CurrentInRange (run s es)
unfolding run
run-InRange s [] v = v
run-InRange s (e ∷ es) v = run-InRange (step s e) es (step-InRange s e v)

init-InRange :
    (m : Modernizr) (count : ℕ) (o : Overrides) → 0 < count → CurrentInRange (init m count o)
unfolding init
init-InRange m count o h = ground arith

-- On a page with at least one slide, whatever the options and the browser, and after any clicks,
-- calls, timers and ends of animations in any order, the current slide is one of the slides.
pub run-init-InRange :
    (m : Modernizr) (count : ℕ) (o : Overrides) (es : List Event)
    → 0 < count
    → CurrentInRange (run (init m count o) es)
run-init-InRange m count o es h = run-InRange (init m count o) es (init-InRange m count o h)
