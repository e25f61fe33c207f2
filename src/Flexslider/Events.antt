-- ===== src/Flexslider/Events.antt =====
-- The start of the slider of assets/js/jquery.flexslider.js, its listeners and intervals, and the
-- calls of its methods by `$.fn.flexslider`. `keyboard` is that option together with the test that the
-- page has one such slider or `multipleKeyboard` is set; `initDelay` is 0.
use twitter_client_server.Prelude.{
  ℕ, Bool, true, false, not, ◌&&◌, ◌||◌, none, some, List, [], ◌∷◌, if◌then◌else◌, ◌==◌, ltb,
}
use twitter_client_server.Prelude.Int.{pos}
use twitter_client_server.Browser.{no_timers, find}
use twitter_client_server.Flexslider.{
  Direction, next, prev, Options, control_active, slide_active, css_end, js_end, Slider, headed,
  target, place, update_arrows, pause, play, flex_animate, wrapup,
}

-- At the time that `atEnd` is set at first, `last` is not known.
abbrev pub created : Bool → Bool → ℕ → Options → Slider
created touch transitions last o = record {
  options = o;
  touch = touch;
  transitions = not o.fade && transitions;
  visible = true;
  last = last;
  clone_offset = if not o.fade && o.animation_loop then 1 else 0;
  animating = false;
  current_slide = o.start_at;
  animating_to = o.start_at;
  at_end = o.start_at == 0;
  direction = none;
  playing = false;
  manual_pause = false;
  manual_play = false;
  animated_slides = none;
  intervals = no_timers;
  position = pos 0;
  ending = none;
  arrows = record { prev_disabled = false; next_disabled = false };
  calls = [];
}

-- `setup( "init" )`: the strip shows the current slide.
abbrev pub set_up : Slider → Slider
set_up s = if s.options.fade then s else record s { position = place s s.current_slide }

unfoldable pub init : Bool → Bool → ℕ → Options → Slider
unfolding play update_arrows
init touch transitions last o =
    let s = update_arrows (set_up (created touch transitions last o)) in
    let t = record s {
      calls = control_active s.animating_to ∷ slide_active s.current_slide ∷ s.calls;
    } in
    if o.slideshow then play t else t

-- An arrow, the mouse wheel if `mousewheel` is set, and, by `paused`, the calls "next" and "prev".
abbrev pub go : Direction → Bool → Slider → Slider
go d paused s = let t = headed d s in flex_animate (target d t) paused t

unfoldable pub on_key : ℕ → Slider → Slider
on_key code s =
    if s.options.keyboard && (not s.animating && ((code == 39) || (code == 37)))
    then go (if code == 39 then next else prev) s.options.pause_on_action s
    else s

unfoldable pub on_wheel : Bool → Slider → Slider
on_wheel negative s =
    if s.options.mousewheel
    then go (if negative then next else prev) s.options.pause_on_action s
    else s

-- A click on the control of slide `i`, which does nothing when that control is the active one.
unfoldable pub on_control : ℕ → Slider → Slider
on_control i s =
    if i == s.animating_to
    then s
    else flex_animate i s.options.pause_on_action
        (headed (if ltb s.current_slide i then next else prev) s)

-- `animateSlides`
unfoldable pub on_interval : ℕ → Slider → Slider
on_interval h s = elim (find h s.intervals.pending) [
  | none ↦ s
  | some c ↦ if not s.animating then go next false s else s
]

abbrev pub hovers : Slider → Bool
hovers s =
    s.options.slideshow && (s.options.pause_on_hover && (not s.manual_play && not s.manual_pause))

-- The end of a transition or of an animation; the callback of an animation runs once.
unfoldable pub on_ended : Slider → Slider
on_ended s = elim s.ending [
  | none ↦ s
  | some css_end ↦ wrapup s
  | some js_end ↦ wrapup (record s { ending = none })
]

pub data Event : Type 0 where
  arrow : Direction → Event
  key control interval call_number : ℕ → Event
  wheel : Bool → Event
  hover_in hover_out ended call_play call_pause call_next call_prev : Event
  visibility : Bool → Event

unfoldable pub step : Slider → Event → Slider
step s (arrow d) = go d s.options.pause_on_action s
step s (key code) = on_key code s
step s (control i) = on_control i s
step s (interval h) = on_interval h s
step s (call_number i) = flex_animate i true s
step s (wheel negative) = on_wheel negative s
step s hover_in = if hovers s then pause s else s
step s hover_out = if hovers s then play s else s
step s ended = on_ended s
step s call_play = play s
step s call_pause = pause s
step s call_next = go next true s
step s call_prev = go prev true s
step s (visibility b) = record s { visible = b }

unfoldable pub run : Slider → List Event → Slider
run s [] = s
run s (e ∷ es) = run (step s e) es
