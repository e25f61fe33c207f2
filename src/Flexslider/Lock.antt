-- ===== src/Flexslider/Lock.antt =====
-- What an animation locks in a slider of assets/js/jquery.flexslider.js, and the intervals of its
-- slideshow.
use twitter_client_server.Prelude.{
  ℕ, ◌≡◌, ◌≢◌, refl, Bool, true, false, Option, none, some, [], ◌∷◌, if◌then◌else◌, ltb, arith,
  Option-cases, inl, inr, ap,
}
use twitter_client_server.Browser.{find, remove}
use twitter_client_server.Flexslider.{
  Direction, next, prev, Slider, animate_slides, headed, target, pause, play, flex_animate, wrapup,
  Ending, css_end, js_end,
}
use twitter_client_server.Flexslider.Events.{
  go, on_key, on_wheel, on_control, on_interval, on_ended, Event, arrow, key, control, interval,
  call_number, wheel, hover_in, hover_out, ended, call_play, call_pause, call_next, call_prev,
  visibility, step, run,
}
use twitter_client_server.Flexslider.Steps.{flex_animate_locked}
use twitter_client_server.Browser.Laws.{find-remove_ne}

go_locked :
    (d : Direction) (paused : Bool) (s : Slider) → s.animating ≡ true → go d paused s ≡ headed d s
go_locked d paused s a = flex_animate_locked (target d (headed d s)) paused (headed d s) a

on_interval_locked : (h : ℕ) (s : Slider) → s.animating ≡ true → on_interval h s ≡ s
unfolding on_interval
on_interval_locked h s a = elim (Option-cases (find h s.intervals.pending)) [
  | inl e ↦ rw (e, on_interval) refl
  | inr (c, e) ↦ rw (e, on_interval) (ground arith)
]

ended-animating_to : (s : Slider) → (on_ended s).animating_to ≡ s.animating_to
unfolding on_ended wrapup
ended-animating_to s = by s.ending
  where
    by :
        (o : Option Ending)
        → (elim o as (λ (x : Option Ending). Slider) [
          | none ↦ s
          | some css_end ↦ wrapup s
          | some js_end ↦ wrapup (record s { ending = none })
        ]).animating_to
          ≡ s.animating_to
    by none = refl
    by (some css_end) = ground arith
    by (some js_end) = ground arith

goes_nowhere :
    (d : Direction) (paused : Bool) (s : Slider)
    → s.animating ≡ true
    → (go d paused s).animating_to ≡ s.animating_to
goes_nowhere d paused s a = ap (λ (t : Slider). t.animating_to) (go_locked d paused s a)

wheel_locked :
    (b : Bool) (s : Slider) → s.animating ≡ true → (on_wheel b s).animating_to ≡ s.animating_to
unfolding on_wheel
wheel_locked b s a = ground (
  arith,
  goes_nowhere next s.options.pause_on_action s a,
  goes_nowhere prev s.options.pause_on_action s a,
)

on_control_locked :
    (i : ℕ) (s : Slider) → s.animating ≡ true → (on_control i s).animating_to ≡ s.animating_to
unfolding on_control
on_control_locked i s a = ground (arith, ap (λ (t : Slider). t.animating_to) (locked a))
  where
    locked :
        s.animating ≡ true
        → flex_animate i s.options.pause_on_action
            (headed (if ltb s.current_slide i then next else prev) s)
          ≡ headed (if ltb s.current_slide i then next else prev) s
    locked h = flex_animate_locked i s.options.pause_on_action _ h

-- While an animation runs no event changes the slide that it leads to: arrows, keys, controls, the
-- mouse wheel, the slideshow and calls are refused, and the end of the animation keeps it.
pub step-animating_to_locked :
    (e : Event) (s : Slider) → s.animating ≡ true → (step s e).animating_to ≡ s.animating_to
unfolding step on_key pause play
step-animating_to_locked (arrow d) s a = goes_nowhere d s.options.pause_on_action s a
step-animating_to_locked (key code) s a = ground arith
step-animating_to_locked (control i) s a = on_control_locked i s a
step-animating_to_locked (interval h) s a =
    ap (λ (t : Slider). t.animating_to) (on_interval_locked h s a)
step-animating_to_locked (call_number i) s a =
    ap (λ (t : Slider). t.animating_to) (flex_animate_locked i true s a)
step-animating_to_locked (wheel b) s a = wheel_locked b s a
step-animating_to_locked hover_in s a = ground arith
step-animating_to_locked hover_out s a = ground arith
step-animating_to_locked ended s a = ended-animating_to s
step-animating_to_locked call_play s a = refl
step-animating_to_locked call_pause s a = refl
step-animating_to_locked call_next s a = goes_nowhere next true s a
step-animating_to_locked call_prev s a = goes_nowhere prev true s a
step-animating_to_locked (visibility b) s a = refl

-- A slideshow whose interval is pending, and that is told to play and then to pause, counts as
-- paused and goes on: the interval is still pending, since `play` forgot its handle.
pub call_pause-call_play :
    (s : Slider) (h : ℕ)
    → h ≢ s.intervals.next_id
    → find h s.intervals.pending ≡ some animate_slides
    → (find h (run s (call_play ∷ call_pause ∷ [])).intervals.pending ≡ some animate_slides)
      × ((run s (call_play ∷ call_pause ∷ [])).playing ≡ false)
unfolding run step play pause find remove
call_pause-call_play s h n e =
    (ground (arith, find-remove_ne s.intervals.next_id h s.intervals.pending), refl)
