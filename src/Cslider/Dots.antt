-- ===== src/Cslider/Dots.antt =====
-- The dots under the slides of assets/js/jquery.cslider.js, as the calls to jQuery leave them.
use twitter_client_server.Prelude.{
  ℕ, ◌≡◌, refl, Option, none, some, List, [], ◌∷◌, arith, Bool-cases, inl, inr, Option-cases,
}
use twitter_client_server.Prelude.Int.{ℤ}
use twitter_client_server.Browser.{find}
use twitter_client_server.Cslider.{
  Overrides, Direction, next, Slider, navigate, start_slideshow, stop_slideshow, next_page, page,
  tick, Call, add_class, remove_class, dots_current, all_dots, dot,
}
use twitter_client_server.Cslider.Frame.{refuses, navigate_refused}
use twitter_client_server.Cslider.Events.{
  Modernizr, init, click_next, click_prev, on_tick, on_timer, on_animated, on_animation_end,
  on_transition_end, Event, click_dot, call_page, click_arrow_next, click_arrow_prev, timer,
  animated, animation_ended, transition_ended, step, run,
}

-- The dot that has the class `da-dots-current` after some calls, the newest first. `removeClass`
-- on `$pages` takes the class off all dots.
abbrev pub lit : List Call → Option ℤ
lit [] = none
lit (add_class (dot i) dots_current ∷ _) = some i
lit (remove_class all_dots _ ∷ _) = none
lit (_ ∷ calls) = lit calls

abbrev pub IsLit : Slider → Type 0
IsLit s = lit s.calls ≡ some s.current

navigate-IsLit : (i : ℤ) (d : Option Direction) (s : Slider) → IsLit s → IsLit (navigate i d s)
navigate-IsLit i d s v = elim (Bool-cases (refuses i s)) [
  | inl e ↦ rw (navigate_refused i d s e) v
  | inr e ↦ unfold navigate in rw e refl
]

stop_slideshow-IsLit : (s : Slider) → IsLit s → IsLit (stop_slideshow s)
unfolding stop_slideshow
stop_slideshow-IsLit s v = ground arith

on_tick-IsLit : (s : Slider) → IsLit s → IsLit (on_tick s)
unfolding on_tick start_slideshow
on_tick-IsLit s v = ground (arith, navigate-IsLit (next_page s) (some next) s v)

on_timer-IsLit : (k : ℕ) (s : Slider) → IsLit s → IsLit (on_timer k s)
unfolding on_timer
on_timer-IsLit k s v = elim (Option-cases (find k s.timers.pending)) [
  | inl e ↦ rw (e, on_timer) v
  | inr (tick, e) ↦ rw (e, on_timer) (on_tick-IsLit _ v)
]

page-IsLit : (i : ℤ) (s : Slider) → IsLit s → IsLit (page i s)
unfolding page
page-IsLit i s v =
    ground (arith, navigate-IsLit i none (stop_slideshow s) (stop_slideshow-IsLit s v))

step-IsLit : (s : Slider) (e : Event) → IsLit s → IsLit (step s e)
unfolding step click_next click_prev on_animated on_animation_end on_transition_end
step-IsLit s (click_dot i) v = page-IsLit i s v
step-IsLit s (call_page i) v = page-IsLit i s v
step-IsLit s click_arrow_next v = navigate-IsLit _ _ (stop_slideshow s) (stop_slideshow-IsLit s v)
step-IsLit s click_arrow_prev v = navigate-IsLit _ _ (stop_slideshow s) (stop_slideshow-IsLit s v)
step-IsLit s (timer h) v = on_timer-IsLit h s v
step-IsLit s (animated k) v = ground arith
step-IsLit s (animation_ended name) v = ground arith
step-IsLit s (transition_ended own) v = ground arith

run-IsLit : (s : Slider) (es : List Event) → IsLit s → IsLit (run s es)
unfolding run
run-IsLit s [] v = v
run-IsLit s (e ∷ es) v = run-IsLit (step s e) es (step-IsLit s e v)

init-IsLit : (m : Modernizr) (count : ℕ) (o : Overrides) → IsLit (init m count o)
unfolding init
init-IsLit m count o = ground arith

-- The dot that is lit is that of the current slide, from the start on and after any events.
pub run-init-IsLit :
    (m : Modernizr) (count : ℕ) (o : Overrides) (es : List Event)
    → lit (run (init m count o) es).calls ≡ some (run (init m count o) es).current
run-init-IsLit m count o es = run-IsLit (init m count o) es (init-IsLit m count o)
