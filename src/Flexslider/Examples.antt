-- ===== src/Flexslider/Examples.antt =====
-- A slider of assets/js/jquery.flexslider.js with three slides.
use twitter_client_server.Prelude.{
  ◌≡◌, ◌≢◌, refl, ℕ, Option, some, true, false, List, [], ◌∷◌, arith,
}
use twitter_client_server.Browser.{find, set_timeout}
use twitter_client_server.Flexslider.{
  next, prev, Options, defaults, Slider, headed, place, play, pause, begun, marked, update_arrows,
  cycled, slide_to, fade_to, advance, can_advance, flex_animate, wrapup,
}
use twitter_client_server.Flexslider.Events.{
  init, on_ended, on_control, on_interval, Event, arrow, control, interval, ended, call_next, step,
  run,
}
use twitter_client_server.Flexslider.Strip.{run-position}
use twitter_client_server.Flexslider.Ends.{run-arrow_at_end}
use twitter_client_server.Flexslider.LastStart.{arrow_from_last_start}
use twitter_client_server.Flexslider.Controls.{PanelEvent, click, panel_pause}
use twitter_client_server.Flexslider.Slides.{Slides, add_slide, remove_slide}
use twitter_client_server.Flexslider.Slides.Dots.{IsWhole}
use twitter_client_server.Flexslider.Slides.Kept.{
  Follows, MovesOn, add_slide-Follows, remove_slide-Follows, remove_slide-before,
}
use twitter_client_server.Flexslider.Carousel.{Sizes}

abbrev sliding : Options
sliding = record (defaults) { fade = false }

abbrev once_through : Options
once_through = record (defaults) { animation_loop = false }

-- From the first slide back to the last, and on to the first again.
abbrev around : List Event
around = arrow prev ∷ ended ∷ arrow next ∷ ended ∷ interval 1 ∷ control 1 ∷ []

around_current : (run (init false false 2 sliding) around).current_slide ≡ 0
unfolding init run step flex_animate can_advance advance begun marked update_arrows cycled slide_to
    wrapup on_ended on_control on_interval play pause set_timeout find
around_current = refl

run-position_example :
    (run (init false true 2 sliding) around).position
    ≡ place
        (run (init false true 2 sliding) around)
        (run (init false true 2 sliding) around).current_slide
unfolding init run step flex_animate can_advance advance begun marked update_arrows cycled slide_to
    wrapup on_ended on_control on_interval play pause set_timeout find
run-position_example = run-position false true 2 sliding around refl (omega arith) refl

abbrev to_the_end : List Event
to_the_end = arrow next ∷ ended ∷ arrow next ∷ ended ∷ []

run-arrow_at_end_example :
    step (run (init false false 2 once_through) to_the_end) (arrow next)
    ≡ headed next (run (init false false 2 once_through) to_the_end)
unfolding init run step flex_animate can_advance advance begun marked update_arrows cycled fade_to
    wrapup on_ended play pause set_timeout find
run-arrow_at_end_example =
    run-arrow_at_end false false 2 once_through to_the_end next refl (λ e. omega arith) refl refl

abbrev clicks : List PanelEvent
clicks = click ∷ panel_pause ∷ click ∷ click ∷ []

abbrev without_slideshow : Options
without_slideshow = record (defaults) { slideshow = false }

abbrev four_slides : Slides
four_slides = record {
  slides = 10 ∷ 11 ∷ 12 ∷ 13 ∷ [];
  last = 3;
  current_slide = 2;
  animating_to = 2;
  dots = 4;
}

four_slides-IsWhole : IsWhole four_slides
four_slides-IsWhole = record {
  counted = refl;
  in_range = omega arith;
  at_rest = refl;
  paged = refl;
}

abbrev before_second : Option ℕ
before_second = some 1

abbrev fourth : ℕ
fourth = 3

add_slide-Follows_example :
    Follows
      (before_second ≢ some four_slides.current_slide)
      four_slides
      (add_slide 2 99 before_second four_slides)
add_slide-Follows_example =
    add_slide-Follows 0 99 before_second four_slides four_slides-IsWhole (omega arith)

remove_slide-Follows_example :
    Follows (fourth ≢ four_slides.current_slide) four_slides (remove_slide 1 fourth four_slides)
remove_slide-Follows_example =
    remove_slide-Follows 0 fourth four_slides four_slides-IsWhole (omega arith) (omega arith)
      (omega arith)

remove_slide-before_example : MovesOn four_slides (remove_slide 1 0 four_slides)
remove_slide-before_example = remove_slide-before 0 0 four_slides four_slides-IsWhole (omega arith)

abbrev wide_page : Sizes
wide_page = record { visible = 3; move = 2; count = 8 }

abbrev from_the_last : Options
from_the_last = record (once_through) { start_at = 2 }

arrow_from_last_start_example :
    (step (init false false 2 from_the_last) (arrow next)).animating_to ≡ 0
arrow_from_last_start_example =
    arrow_from_last_start false false 2 from_the_last refl (omega arith) refl

abbrev moving : Slider
moving = run (init false false 2 sliding) (call_next ∷ [])

abbrev playing : Slider
playing = init false false 2 sliding
