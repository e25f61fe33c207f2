-- ===== src/Slitslider/Examples.antt =====
-- The slider of assets/js/jquery.slitslider.js with three slides.
use twitter_client_server.Prelude.{
  ◌≡◌, refl, true, false, none, some, List, [], ◌∷◌, get_elem?, arith,
}
use twitter_client_server.Prelude.Int.{pos, negsuc}
use twitter_client_server.Slitslider.{
  Overrides, defaults, SlideData, Config, config_of, validate_values, vertical,
}
use twitter_client_server.Slitslider.Plugin.{Element, Page, by_options, plugin}
use twitter_client_server.Slitslider.Plugin.Collections.{IsEmptied, plugin-by_options}
use twitter_client_server.Slitslider.Slices.{IsValid}
use twitter_client_server.Slitslider.Slider.{
  Slider, animate, navigate, start_slideshow, stop_slideshow, go_next,
}
use twitter_client_server.Slitslider.Slider.Events.{
  init, Event, key, resize, timer, transition_end, call_next, call_play, call_pause, call_jump,
  call_add, step, run,
}
use twitter_client_server.Slitslider.Slider.Sound.{IsSound}
use twitter_client_server.Slitslider.Slider.Sound.Steps.{run-slider-IsSound}
use twitter_client_server.Slitslider.Slider.Moves.{ComesToRest, run-slider_ends}

-- A slide whose data are beyond the limits.
abbrev steep : SlideData
steep = record {
  orientation = some vertical;
  slice1_rotation = some (negsuc 39);
  slice1_scale = some (pos 300);
  slice2_rotation = some (pos 10);
  slice2_scale = none;
}

abbrev three : List SlideData
three = steep ∷ steep ∷ steep ∷ []

abbrev playing : Overrides
playing = record {
  speed = none;
  opt_opacity = none;
  translate_factor = none;
  max_angle = none;
  max_scale = none;
  autoplay = some true;
  keyboard = none;
  interval = none;
}

abbrev usage : List Event
usage =
    timer 1
    ∷ timer 2
    ∷ timer 3
    ∷ transition_end
    ∷ key 37
    ∷ call_add three
    ∷ call_play
    ∷ call_jump (pos 2)
    ∷ resize 800 600
    ∷ call_pause
    ∷ []

abbrev once : List Event
once = call_next ∷ []

-- An angle of -40 degrees becomes one of 25.
abbrev gentle : Config
gentle = record {
  orientation = vertical;
  slice1angle = pos 25;
  slice1scale = pos 200;
  slice2angle = pos 10;
  slice2scale = pos 100;
}

steep_validated : validate_values defaults (config_of steep) ≡ gentle
unfolding validate_values config_of
steep_validated = refl

gentle-IsValid : IsValid defaults gentle
gentle-IsValid = record {
  angle1 = (ground arith, ground arith);
  angle2 = (ground arith, ground arith);
  scale1 = (ground arith, ground arith);
  scale2 = (ground arith, ground arith);
  orientation = λ e. ground arith;
}

run-slider-IsSound_example : IsSound (run (init true 800 600 three playing) usage)
run-slider-IsSound_example = run-slider-IsSound true 800 600 three playing usage

abbrev moving : Slider
moving = run (init true 800 600 three playing) once

abbrev resting : Slider
resting = init true 800 600 three playing

run-slider_ends_example : ComesToRest moving
unfolding init run step go_next navigate animate stop_slideshow start_slideshow
run-slider_ends_example = run-slider_ends true 800 600 three playing once refl

abbrev wrapper : Element
wrapper = record { data_of = none; wrapped = false; slides = three; width = 800; height = 400 }

abbrev two_wrappers : Page
two_wrappers = record { elements = wrapper ∷ wrapper ∷ []; store = []; logs = [] }

plugin-by_options_example :
    (get_elem? (plugin true none (by_options playing) (1 ∷ []) two_wrappers).store 0
      ≡ some (record { slider = init true 800 400 three playing; wrapper = 1; bindings = 1 }))
    × (((plugin true none (by_options playing) (1 ∷ 0 ∷ []) two_wrappers).elements
          ≡ wrapper ∷ record (wrapper) { data_of = some 0; wrapped = true } ∷ [])
        × IsEmptied 2
            (get_elem? (plugin true none (by_options playing) (1 ∷ 0 ∷ []) two_wrappers).store 0))
plugin-by_options_example = plugin-by_options true playing 1 0 [] two_wrappers wrapper refl refl
