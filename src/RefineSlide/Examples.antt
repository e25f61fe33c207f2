-- ===== src/RefineSlide/Examples.antt =====
-- The slider of assets/js/jquery.refineslide.js with three slides of 400 by 300 pixels.
use twitter_client_server.Prelude.{
  zero, suc, ◌<◌, ℕ, ◌+◌, ◌/◌, ◌≡◌, ◌≢◌, refl, true, false, none, some, List, [], ◌∷◌, arith,
}
use twitter_client_server.Prelude.Int.{◌+ℤ◌}
use twitter_client_server.RefineSlide.Grid.{columns}
use twitter_client_server.RefineSlide.Grid.Columns.{Tiles, columns-Tiles}
use twitter_client_server.RefineSlide.Grid.Rows.{AllStacked, rows_end, columns-AllStacked}
use twitter_client_server.RefineSlide.Transition.{Name, cube_v, fade, slice_v, random, Env, plan}
use twitter_client_server.RefineSlide.Transition.Resolve.{ShowsSome, plan-ShowsSome}
use twitter_client_server.RefineSlide.Rs.{
  Overrides, css_end, Rs, cycle, before, begin, marks, transition_with, transition, next,
}
use twitter_client_server.RefineSlide.Rs.Events.{
  Browser, init, Event, arrow_next, arrow_prev, key, timer, ended, mouse_enter, mouse_leave, step,
  run,
}
use twitter_client_server.RefineSlide.Rs.Tracking.{IsSound, run-init-IsSound}
use twitter_client_server.RefineSlide.Rs.Lock.{run-in_progress_released}
use twitter_client_server.RefineSlide.Rs.Hover.{others, hover_in_transition}
use twitter_client_server.RefineSlide.ImagesLoaded.{
  Element, Event as ImagesEvent, event, start, run as run_images, mem, is_blank,
}
use twitter_client_server.RefineSlide.ImagesLoaded.Done.{targets, run-start-done}

columns-Tiles_example : Tiles (403 / 10) 0 403 (columns 10 8 403 301)
columns-Tiles_example = columns-Tiles 10 8 403 301 (omega arith)

columns-AllStacked_example : AllStacked (rows_end 8 301) (columns 10 8 403 301)
columns-AllStacked_example = columns-AllStacked 10 8 403 301 (omega arith)

-- The rows of an image that is 301 pixels high end 3 pixels below it.
rows_overshoot : rows_end 8 301 ≡ 304
rows_overshoot = refl

-- A browser with CSS transitions and without 3D transforms.
abbrev flat : Name → Env
flat fallback = record {
  css_transitions = true;
  css_transforms3d = false;
  fallback3d = fallback;
  forward = true;
  slide_width = 400;
  slide_height = 300;
  pick = cube_v;
}

cube_v_ne_random : cube_v ≢ random
cube_v_ne_random = λ e. ground arith

plan-ShowsSome_example : ShowsSome (flat slice_v) (plan 3 (flat slice_v) random)
plan-ShowsSome_example = plan-ShowsSome 0 (flat slice_v) random refl cube_v_ne_random

abbrev modern : Browser
modern = record {
  css_transitions = true;
  css_transforms3d = true;
  slide_width = 400;
  slide_height = 300;
}

abbrev playing : Overrides
playing = record {
  transition = none;
  fallback3d = none;
  controls = none;
  auto_play = some true;
  delay = none;
  transition_duration = none;
  start_slide = none;
  key_nav = none;
}

abbrev once : List Event
once = arrow_next fade ∷ []

abbrev usage : List Event
usage =
    timer fade 1 ∷ ended ∷ arrow_prev fade ∷ key fade 39 ∷ ended ∷ mouse_enter ∷ mouse_leave ∷ []

run-init-IsSound_example : IsSound (run (init modern 3 playing) usage)
run-init-IsSound_example =
    run-init-IsSound modern 3 playing usage (omega arith)
      (tt, (tt, (tt, (tt, (tt, (tt, (tt, tt)))))))

abbrev moving : Rs
moving = run (init modern 3 playing) once

run-in_progress_released_example :
    (moving.ending ≡ some css_end)
    × ((step moving ended).in_progress ≡ false)
    × ((step moving ended).current_slide ≡ moving.next_slide)
unfolding init run step next transition transition_with begin before marks plan ◌+ℤ◌
run-in_progress_released_example =
    run-in_progress_released modern 3 playing once refl ((λ e. ground arith), tt) refl

hover_in_transition_example :
    let t = run moving (mouse_enter ∷ ended ∷ mouse_leave ∷ []) in
    (t.timers.pending
      ≡ (moving.timers.next_id + 1, cycle) ∷ (moving.timers.next_id, cycle) ∷ others moving)
    × (t.cycling ≡ some (moving.timers.next_id + 1))
unfolding init run step next transition transition_with begin before marks plan ◌+ℤ◌
hover_in_transition_example = hover_in_transition moving css_end refl refl

-- Two images: one that an earlier call found broken, and one that is not complete.
abbrev known_broken : Element
known_broken = record {
  blank = false;
  cached = some true;
  complete = false;
  natural_broken = none;
  ready_state = false;
}

abbrev not_complete : Element
not_complete = record {
  blank = false;
  cached = none;
  complete = false;
  natural_broken = none;
  ready_state = true;
}

abbrev two : List Element
two = known_broken ∷ not_complete ∷ []

abbrev loads : List ImagesEvent
loads = event 0 false ∷ event 1 true ∷ event 1 false ∷ []

two-not_blank : (i : ℕ) → is_blank i two ≡ false
two-not_blank zero = refl
two-not_blank (suc zero) = refl
two-not_blank (suc (suc i)) = refl

loads_of_two : (i : ℕ) → i < 2 → mem i (targets loads) ≡ true
loads_of_two i h = ground arith

run-start-done_example : (run_images (start two) loads).done_calls ≡ 1
run-start-done_example = run-start-done two loads two-not_blank loads_of_two
