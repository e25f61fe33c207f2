-- ===== src/Slitslider/Slider/Moves.antt =====
-- How the current slide of assets/js/jquery.slitslider.js moves: by `jump`, by no event while a
-- navigation is animated, and that such a navigation comes to its end.
use twitter_client_server.Prelude.{
  ℕ, zero, suc, ◌+◌, ◌≤◌, ◌<◌, ◌≡◌, ◌≢◌, refl, Bool, true, false, inl, inr, ◌⊎◌, Option, none, some,
  List, [], ◌∷◌, arith, Bool-cases, Option-cases, ap, ◌∙◌,
}
use twitter_client_server.Prelude.Int.{ℤ, pos, negsuc}
use twitter_client_server.Browser.{find}
use twitter_client_server.Browser.Laws.{count, found_of_count}
use twitter_client_server.Slitslider.{Overrides, SlideData}
use twitter_client_server.Slitslider.Slider.{
  Direction, next, prev, Callback, move_slice1, move_slice2, tick, Listener, Slider, animate,
  navigate, on_end_navigate, on_move_slice2, start_slideshow, stop_slideshow, on_tick, go_next,
  previous, way_to, jump_to, jump, play, pause, add,
}
use twitter_client_server.Slitslider.Slider.Events.{
  init, on_key, on_resize, elapsed, run_callback, on_timer, on_transition_end, Event, key, resize,
  timer, transition_end, call_next, call_previous, call_play, call_pause, call_jump, call_add, step,
  run,
}
use twitter_client_server.Slitslider.Slider.Sound.{IsSound, is_slice2}
use twitter_client_server.Slitslider.Slider.Sound.Steps.{run-slider-IsSound}

navigate_busy :
    (d : Direction) (at : Option ℕ) (s : Slider) → s.is_animating ≡ true → navigate d at s ≡ s
unfolding navigate
navigate_busy d at s a = rw a refl

stopped-is_animating : (s : Slider) → (stop_slideshow s).is_animating ≡ s.is_animating
unfolding stop_slideshow
stopped-is_animating s = ground arith

stopped-current : (s : Slider) → (stop_slideshow s).current ≡ s.current
unfolding stop_slideshow
stopped-current s = ground arith

navigate_stopped :
    (d : Direction) (at : Option ℕ) (s : Slider)
    → s.is_animating ≡ true
    → (navigate d at (stop_slideshow s)).current ≡ s.current
navigate_stopped d at s a =
    ap (λ (t : Slider). t.current)
      (navigate_busy d at (stop_slideshow s) (stopped-is_animating s ∙ a))
    ∙ stopped-current s

on_tick_busy : (s : Slider) → s.is_animating ≡ true → (on_tick s).current ≡ s.current
unfolding on_tick start_slideshow
on_tick_busy s a = ground (arith, navigate_busy next none s a)

run_callback_busy :
    (c : Callback) (s : Slider) → s.is_animating ≡ true → (run_callback c s).current ≡ s.current
unfolding run_callback on_move_slice2 on_end_navigate
run_callback_busy (move_slice1 d m st) s a = refl
run_callback_busy (move_slice2 d old new m st) s a = ground arith
run_callback_busy tick s a = on_tick_busy s a

on_timer_busy : (h : ℕ) (s : Slider) → s.is_animating ≡ true → (on_timer h s).current ≡ s.current
unfolding on_timer
on_timer_busy h s a = elim (Option-cases (find h s.timers.pending)) [
  | inl e ↦ rw (e, on_timer) refl
  | inr (c, e) ↦ rw (e, on_timer) (run_callback_busy c (elapsed h s) a)
]

jump_busy : (i : ℤ) (s : Slider) → s.is_animating ≡ true → (jump i s).current ≡ s.current
unfolding jump jump_to
jump_busy (negsuc n) s a = refl
jump_busy (pos zero) s a = refl
jump_busy (pos (suc i)) s a = ground (arith, navigate_stopped (way_to i s) (some i) s a)

play_busy : (s : Slider) → s.is_animating ≡ true → (play s).current ≡ s.current
unfolding play start_slideshow
play_busy s a = ground (arith, navigate_busy next none (record s { is_playing = true }) a)

-- While a navigation is animated no event moves the current slide: no key, no click, no timer of
-- the slideshow and no call of a public method.
pub step-current_busy :
    (e : Event) (s : Slider) → s.is_animating ≡ true → (step s e).current ≡ s.current
unfolding step on_key go_next previous on_resize on_transition_end on_end_navigate add pause
step-current_busy (key code) s a =
    ground (arith, navigate_stopped prev none s a, navigate_stopped next none s a)
step-current_busy (resize w h) s a = refl
step-current_busy (timer h) s a = on_timer_busy h s a
step-current_busy transition_end s a = ground arith
step-current_busy call_next s a = navigate_stopped next none s a
step-current_busy call_previous s a = navigate_stopped prev none s a
step-current_busy call_play s a = play_busy s a
step-current_busy call_pause s a = ground (arith, stopped-current s)
step-current_busy (call_jump i) s a = jump_busy i s a
step-current_busy (call_add l) s a = refl

navigate_free :
    (d : Direction) (i : ℕ) (s : Slider)
    → s.is_animating ≡ false
    → 2 ≤ s.slides_count
    → ((navigate d (some i) s).current ≡ i) × ((navigate d (some i) s).is_animating ≡ true)
unfolding navigate animate
navigate_free d i s a n = ground arith

stopped-slides_count : (s : Slider) → (stop_slideshow s).slides_count ≡ s.slides_count
unfolding stop_slideshow
stopped-slides_count s = ground arith

jump_to-current :
    (i : ℕ) (s : Slider)
    → s.is_animating ≡ false
    → s.current < s.slides_count
    → i < s.slides_count
    → i ≢ s.current
    → ((jump_to i s).current ≡ i) × ((jump_to i s).is_animating ≡ true)
unfolding jump_to
jump_to-current i s a c l n = ground (
  arith,
  navigate_free (way_to i s) i (stop_slideshow s),
  stopped-is_animating s,
  stopped-slides_count s,
)

-- A jump to another slide goes to it and starts to animate, when no navigation is being animated;
-- positions begin at 1.
pub jump-current :
    (k : ℕ) (s : Slider)
    → s.is_animating ≡ false
    → s.current < s.slides_count
    → 0 < k
    → k ≤ s.slides_count
    → k ≢ s.current + 1
    → ((jump (pos k) s).current + 1 ≡ k) × ((jump (pos k) s).is_animating ≡ true)
unfolding jump
jump-current zero s a c z l n = absurd (omega (arith, z))
jump-current (suc i) s a c z l n =
    ground (arith, jump_to-current i s a c (omega arith) (λ q. omega arith))

ended_by_listener :
    (s : Slider) (l : Listener) → s.listener ≡ some l → (on_transition_end s).is_animating ≡ false
unfolding on_transition_end on_end_navigate
ended_by_listener s l e = ground arith

ended_by_timer :
    (c : Callback) (s : Slider)
    → is_slice2 c ≡ true
    → (on_transition_end (run_callback c s)).is_animating ≡ false
unfolding run_callback on_move_slice2 on_transition_end on_end_navigate
ended_by_timer (move_slice1 d m st) s e = ground arith
ended_by_timer (move_slice2 d old new m st) s e = elim (Bool-cases s.support) [
  | inl q ↦ rw q refl
  | inr q ↦ rw q refl
]
ended_by_timer tick s e = ground arith

waits :
    (s : Slider)
    → IsSound s
    → s.is_animating ≡ true
    → s.listener ≡ none
    → 0 < count is_slice2 s.timers.pending
waits s v a e = ground arith

-- How a running navigation comes to its end: by the end of the transition that is listened to, or by
-- the second timer of the navigation, which is pending, alone or with the end of the transition that
-- it starts.
pub data ComesToRest (s : Slider) : Type 0 where
  by_transition :
      (l : Listener)
      → s.listener ≡ some l
      → (step s transition_end).is_animating ≡ false
      → ComesToRest s
  by_timer :
      (h : ℕ) (c : Callback)
      → find h s.timers.pending ≡ some c
      → is_slice2 c ≡ true
      → ((step s (timer h)).is_animating ≡ false)
        ⊎ ((l : Listener) × ((step s (timer h)).listener ≡ some l)
            × ((run s (timer h ∷ transition_end ∷ [])).is_animating ≡ false))
      → ComesToRest s

after_timer :
    (c : Callback) (s : Slider)
    → is_slice2 c ≡ true
    → ((run_callback c s).is_animating ≡ false)
      ⊎ ((l : Listener) × ((run_callback c s).listener ≡ some l)
          × ((on_transition_end (run_callback c s)).is_animating ≡ false))
unfolding run_callback on_move_slice2 on_transition_end on_end_navigate
after_timer (move_slice1 d m st) s e = ground arith
after_timer (move_slice2 d old new m st) s e = elim (Bool-cases s.support) [
  | inl q ↦ rw q (inr (record { old = old; moving = m }, refl, refl))
  | inr q ↦ rw q (inl refl)
]
after_timer tick s e = ground arith

ends_by_timer : (s : Slider) → IsSound s → 0 < count is_slice2 s.timers.pending → ComesToRest s
unfolding run step on_timer
ends_by_timer s v p =
    let (h, c, e, q) = found_of_count is_slice2 s.timers.pending v.fresh.distinct p in
    by_timer h c e q (rw (e, on_timer) (after_timer c (elapsed h s) q))

ends : (s : Slider) → IsSound s → s.is_animating ≡ true → ComesToRest s
unfolding step
ends s v a = elim (Option-cases s.listener) [
  | inl e ↦ ends_by_timer s v (waits s v a e)
  | inr (l, e) ↦ by_transition l e (ended_by_listener s l e)
]

-- In every state that the slider can reach while a navigation is animated, that navigation can come
-- to its end: by the end of the transition that is listened to, or by a pending timer, alone or
-- followed by the end of the transition that the slider listens to from then on.
pub run-slider_ends :
    (b : Bool) (w h : ℕ) (l : List SlideData) (o : Overrides) (es : List Event)
    → (run (init b w h l o) es).is_animating ≡ true
    → ComesToRest (run (init b w h l o) es)
run-slider_ends b w h l o es a = ends _ (run-slider-IsSound b w h l o es) a
