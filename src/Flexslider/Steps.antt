-- ===== src/Flexslider/Steps.antt =====
-- What every event of assets/js/jquery.flexslider.js keeps, if it does not depend on the slideshow and
-- is kept when an animation starts and when it ends.
use twitter_client_server.Prelude.{
  ℕ, ◌≡◌, Bool, true, false, not, Option, none, some, List, [], ◌∷◌, if◌then◌else◌, ◌==◌, ltb,
  arith, Bool-cases, Option-cases, inl, inr,
}
use twitter_client_server.Browser.{find, Timers, set_timeout, clear_timeout}
use twitter_client_server.Flexslider.{
  Direction, next, prev, Slider, Call, Callback, animate_slides, headed, target, pause, play,
  advance, flex_animate, wrapup, Ending, css_end, js_end,
}
use twitter_client_server.Flexslider.Events.{
  go, on_key, on_wheel, on_control, on_interval, hovers, on_ended, Event, arrow, key, control,
  interval, call_number, wheel, hover_in, hover_out, ended, call_play, call_pause, call_next,
  call_prev, visibility, step, run,
}

pub flex_animate_locked :
    (t : ℕ) (paused : Bool) (s : Slider) → s.animating ≡ true → flex_animate t paused s ≡ s
unfolding flex_animate
flex_animate_locked t paused s a = ground arith

module _ (Holds : Slider → Type 0)
    (retimed-Holds : (s : Slider) (d : Option Direction) (b w : Bool) (h : Option ℕ)
        (t : Timers Callback) (e : Option Ending) (cs : List Call)
      → Holds s
      → Holds (record s {
        direction = d;
        playing = b;
        visible = w;
        animated_slides = h;
        intervals = t;
        ending = e;
        calls = cs;
      }))
    (advance-Holds : (t : ℕ) (paused : Bool) (s : Slider)
      → s.animating ≡ false
      → Holds s
      → Holds (advance t paused s))
    (wrapup-Holds : (s : Slider) → Holds s → Holds (wrapup s)) where
  pub if-Holds : (b : Bool) (s t : Slider) → Holds s → Holds t → Holds (if b then s else t)
  if-Holds true s t v w = v
  if-Holds false s t v w = w

  flex_animate-Holds :
      (t : ℕ) (paused : Bool) (s : Slider) → Holds s → Holds (flex_animate t paused s)
  unfolding flex_animate
  flex_animate-Holds t paused s v = elim (Bool-cases s.animating) [
    | inl a ↦ rw (flex_animate_locked t paused s a) v
    | inr a ↦ if-Holds _ (advance t paused s) s (advance-Holds t paused s a v) v
  ]

  go-Holds : (d : Direction) (paused : Bool) (s : Slider) → Holds s → Holds (go d paused s)
  go-Holds d paused s v = flex_animate-Holds (target d (headed d s)) paused (headed d s) (
      retimed-Holds s (some d) s.playing s.visible s.animated_slides s.intervals s.ending s.calls v)

  pause-Holds : (s : Slider) → Holds s → Holds (pause s)
  unfolding pause
  pause-Holds s v =
      retimed-Holds s s.direction false s.visible s.animated_slides
        (clear_timeout s.animated_slides s.intervals) s.ending s.calls v

  pub play-Holds : (s : Slider) → Holds s → Holds (play s)
  unfolding play
  play-Holds s v =
      retimed-Holds s s.direction true s.visible (some s.intervals.next_id)
        (set_timeout animate_slides s.intervals) s.ending s.calls v

  on_control-Holds : (i : ℕ) (s : Slider) → Holds s → Holds (on_control i s)
  unfolding on_control
  on_control-Holds i s v = if-Holds (i == s.animating_to) s _ v (
      flex_animate-Holds i s.options.pause_on_action _ (
        retimed-Holds s (some (if ltb s.current_slide i then next else prev)) s.playing s.visible
          s.animated_slides s.intervals s.ending s.calls v))

  on_interval-Holds : (h : ℕ) (s : Slider) → Holds s → Holds (on_interval h s)
  unfolding on_interval
  on_interval-Holds h s v = elim (Option-cases (find h s.intervals.pending)) [
    | inl e ↦ rw (e, on_interval) v
    | inr (c, e) ↦
        rw (e, on_interval)
          (if-Holds (not s.animating) (go next false s) s (go-Holds next false s v) v)
  ]

  ended-Holds : (s : Slider) → Holds s → Holds (on_ended s)
  unfolding on_ended
  ended-Holds s v = by s.ending
    where
      by :
          (o : Option Ending)
          → Holds (elim o [
            | none ↦ s
            | some css_end ↦ wrapup s
            | some js_end ↦ wrapup (record s { ending = none })
          ])
      by none = v
      by (some css_end) = wrapup-Holds s v
      by (some js_end) =
          wrapup-Holds (record s { ending = none })
            (retimed-Holds s s.direction s.playing s.visible s.animated_slides s.intervals none
              s.calls v)

  step-Holds : (e : Event) (s : Slider) → Holds s → Holds (step s e)
  unfolding step on_key on_wheel
  step-Holds (arrow d) s v = go-Holds d s.options.pause_on_action s v
  step-Holds (key code) s v = if-Holds _ _ s (go-Holds _ s.options.pause_on_action s v) v
  step-Holds (control i) s v = on_control-Holds i s v
  step-Holds (interval h) s v = on_interval-Holds h s v
  step-Holds (call_number i) s v = flex_animate-Holds i true s v
  step-Holds (wheel b) s v = if-Holds _ _ s (go-Holds _ s.options.pause_on_action s v) v
  step-Holds hover_in s v = if-Holds (hovers s) (pause s) s (pause-Holds s v) v
  step-Holds hover_out s v = if-Holds (hovers s) (play s) s (play-Holds s v) v
  step-Holds ended s v = ended-Holds s v
  step-Holds call_play s v = play-Holds s v
  step-Holds call_pause s v = pause-Holds s v
  step-Holds call_next s v = go-Holds next true s v
  step-Holds call_prev s v = go-Holds prev true s v
  step-Holds (visibility b) s v =
      retimed-Holds s s.direction s.playing b s.animated_slides s.intervals s.ending s.calls v

  pub run-Holds : (es : List Event) (s : Slider) → Holds s → Holds (run s es)
  unfolding run
  run-Holds [] s v = v
  run-Holds (e ∷ es) s v = run-Holds es (step s e) (step-Holds e s v)
