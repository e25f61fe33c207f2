-- ===== src/Cslider/Examples.antt =====
-- The slider of assets/js/jquery.cslider.js on a page with three slides.
use twitter_client_server.Prelude.{◌≡◌, refl, true, false, none, some, List, [], ◌∷◌, arith}
use twitter_client_server.Prelude.Int.{pos}
use twitter_client_server.Browser.{clear_timeout, remove, find}
use twitter_client_server.Cslider.{
  Overrides, Slider, navigate, start_slideshow, stop_slideshow, page,
}
use twitter_client_server.Cslider.Events.{
  Modernizr, init, click_next, click_prev, on_tick, on_transition_end, on_timer, Event, call_page,
  click_arrow_next, click_arrow_prev, timer, transition_ended, step, run,
}
use twitter_client_server.Cslider.Bounds.{CurrentInRange, run-init-InRange}
use twitter_client_server.Cslider.Slideshow.{
  IsArmed, IsOff, by_next, run-init-IsArmed, run-chosen-IsOff,
}
use twitter_client_server.Cslider.Cycle.{RestsOn}
use twitter_client_server.Cslider.Deaf.{run_without_transitions}

abbrev modern : Modernizr
modern = record { cssanimations = true; csstransitions = true }

abbrev animations_only : Modernizr
animations_only = record { cssanimations = true; csstransitions = false }

-- A slideshow, with the other options as they are.
abbrev playing : Overrides
playing = record { start = none; bgincrement = none; autoplay = some true; interval = none }

abbrev usage : List Event
usage =
    timer 1 ∷ click_arrow_next ∷ transition_ended true ∷ click_arrow_prev ∷ call_page (pos 2) ∷ []

abbrev once : List Event
once = click_arrow_next ∷ []

usage_current : (run (init modern 3 playing) usage).current ≡ pos 0
unfolding init run step page navigate on_timer on_tick click_next click_prev on_transition_end
    stop_slideshow start_slideshow clear_timeout remove find
usage_current = refl

run-init-InRange_example : CurrentInRange (run (init modern 3 playing) usage)
run-init-InRange_example = run-init-InRange modern 3 playing usage (omega arith)

run-init-IsArmed_example : IsArmed (run (init modern 3 playing) usage)
run-init-IsArmed_example = run-init-IsArmed modern 3 playing usage

run-chosen-IsOff_example :
    IsOff (run (step (run (init modern 3 playing) once) click_arrow_next) usage)
run-chosen-IsOff_example = run-chosen-IsOff modern 3 playing once usage by_next

abbrev moving : Slider
moving = run (init modern 3 playing) once

at_rest : RestsOn 0 3 (init modern 3 playing)
unfolding init start_slideshow
at_rest = record {
  current = refl;
  count = refl;
  below = omega arith;
  is_animating = refl;
  end_listener = refl;
}

run_without_transitions_example :
    (run (run (init animations_only 3 playing) once) usage).current
    ≡ (run (init animations_only 3 playing) once).current
unfolding init run step navigate click_next stop_slideshow start_slideshow
run_without_transitions_example =
    run_without_transitions animations_only 3 playing once usage refl refl refl
