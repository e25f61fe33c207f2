-- ===== src/Slitslider/Slider/Events.antt =====
-- The start of the slider of assets/js/jquery.slitslider.js, its listeners and its timers.
use twitter_client_server.Prelude.{
  ℕ, Bool, false, none, some, List, [], ◌∷◌, if◌then◌else◌, ◌==◌, length,
}
use twitter_client_server.Prelude.Int.{ℤ}
use twitter_client_server.Browser.{no_timers, find, remove}
use twitter_client_server.Slitslider.{Overrides, extend, Options, SlideData}
use twitter_client_server.Slitslider.Slider.{
  show, set_size, slice1_css, Callback, move_slice1, move_slice2, tick, Slider, on_move_slice2,
  start_slideshow, on_tick, on_end_navigate, go_next, previous, jump, play, pause, add,
}

abbrev pub created : Bool → ℕ → ℕ → List SlideData → Options → Slider
created support w h slides o = record {
  options = o;
  slides = slides;
  slides_count = length slides;
  current = 0;
  is_animating = false;
  is_playing = false;
  support = support;
  width = w;
  height = h;
  slideshow = none;
  timers = no_timers;
  listener = none;
  calls = show 0 ∷ set_size w h ∷ [];
}

-- `support` is whether the browser has CSS transitions and 3D transforms.
unfoldable pub init : Bool → ℕ → ℕ → List SlideData → Overrides → Slider
unfolding start_slideshow
init support w h slides o =
    let s = created support w h slides (extend o) in
    if s.options.autoplay then start_slideshow s else s

-- The listener for keys: the left and the right arrow.
unfoldable pub on_key : ℕ → Slider → Slider
on_key code s =
    if s.options.keyboard
    then (if code == 37 then previous s else if code == 39 then go_next s else s)
    else s

-- The window has the size `w` by `h`, after a debounced resize.
unfoldable pub on_resize : ℕ → ℕ → Slider → Slider
on_resize w h s = record s { width = w; height = h; calls = set_size w h ∷ s.calls }

abbrev pub elapsed : ℕ → Slider → Slider
elapsed h s = record s { timers = record (s.timers) { pending = remove h s.timers.pending } }

unfoldable pub run_callback : Callback → Slider → Slider
run_callback (move_slice1 d m st) s = record s { calls = slice1_css m st ∷ s.calls }
run_callback (move_slice2 d old new m st) s = on_move_slice2 d old new m st s
run_callback tick s = on_tick s

-- The timer `h` has run out.
unfoldable pub on_timer : ℕ → Slider → Slider
on_timer h s = elim (find h s.timers.pending) [ none ↦ s | some c ↦ run_callback c (elapsed h s) ]

-- The transition of the second slice has ended.
unfoldable pub on_transition_end : Slider → Slider
on_transition_end s = elim s.listener [ none ↦ s | some l ↦ on_end_navigate l.moving l.old s ]

pub data Event : Type 0 where
  key : ℕ → Event
  resize : ℕ → ℕ → Event
  timer : ℕ → Event
  transition_end call_next call_previous call_play call_pause : Event
  call_jump : ℤ → Event
  call_add : List SlideData → Event

unfoldable pub step : Slider → Event → Slider
step s (key code) = on_key code s
step s (resize w h) = on_resize w h s
step s (timer h) = on_timer h s
step s transition_end = on_transition_end s
step s call_next = go_next s
step s call_previous = previous s
step s call_play = play s
step s call_pause = pause s
step s (call_jump i) = jump i s
step s (call_add slides) = add slides s

unfoldable pub run : Slider → List Event → Slider
run s [] = s
run s (e ∷ es) = run (step s e) es
