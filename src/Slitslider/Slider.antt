-- ===== src/Slitslider/Slider.antt =====
-- The slider object of assets/js/jquery.slitslider.js: `_navigate`, the two steps of its
-- animation, `_onEndNavigate`, the slideshow and the public methods. What is asked of jQuery and of
-- the caller's functions is kept as a list of calls, the newest first.
pub mod Events
pub mod Sound
pub mod Moves
use twitter_client_server.Prelude.{
  ℕ, zero, suc, ◌+◌, ◌-◌, Bool, true, false, not, ◌||◌, Option, none, some, List, [], ◌∷◌, ◌++◌,
  if◌then◌else◌, ◌==◌, ltb, leb, length, get_elem?,
}
use twitter_client_server.Prelude.Int.{ℤ, pos, negsuc}
use twitter_client_server.Browser.{Timers, set_timeout, clear_timeout}
use twitter_client_server.Slitslider.{
  Options, SlideData, Config, config_of, validate_values, Orientation, horizontal, Style,
  reset_style, slice1_style, slice2_style,
}
use mathlib.Core.Option.{get_or}

pub data Direction : Type 0 where
  next prev : Direction

pub data Call : Type 0 where
  before_change after_change : ℕ → ℕ → Call
  remove_trans_elems add_trans_elems add_back_elems remove_classes : ℕ → Call
  show hide remove_second_slice unwrap : ℕ → Call
  z_index : ℕ → ℕ → Call
  cut : ℕ → ℕ → Call  -- a slide, and the duration of its transition
  slice1_css slice2_css : ℕ → Style → Call
  content_margin : ℕ → Orientation → ℕ → Call  -- minus one half of a size
  set_size : ℕ → ℕ → Call

-- The callbacks of the timers: the first and the second slice start to move, or the slideshow goes
-- on. Of a navigation they hold the direction, the old slide and the one that is cut.
pub data Callback : Type 0 where
  move_slice1 : Direction → ℕ → Style → Callback
  move_slice2 : Direction → ℕ → ℕ → ℕ → Style → Callback
  tick : Callback

-- A listener for the end of the second slice's transition.
pub record Listener : Type 0 where
  pub old : ℕ
  pub moving : ℕ

pub record Slider : Type 0 where
  pub options : Options
  pub slides : List SlideData
  pub slides_count : ℕ
  pub current : ℕ
  pub is_animating : Bool
  pub is_playing : Bool  -- `undefined` counts as false
  pub support : Bool
  pub width : ℕ
  pub height : ℕ
  pub slideshow : Option ℕ
  pub timers : Timers Callback
  pub listener : Option Listener
  pub calls : List Call

abbrev no_data : SlideData
no_data = record {
  orientation = none;
  slice1_rotation = none;
  slice1_scale = none;
  slice2_rotation = none;
  slice2_scale = none;
}

-- The new slide: the position that was passed, or the neighbour with the boundaries checked.
abbrev pub target : Direction → Option ℕ → Slider → ℕ
target d (some i) s = i
target next none s = if ltb s.current (s.slides_count - 1) then s.current + 1 else 0
target prev none s = if ltb 0 s.current then s.current - 1 else s.slides_count - 1

abbrev pub moving_slide : Direction → ℕ → ℕ → ℕ
moving_slide next old new = old
moving_slide prev old new = new

-- The first slice: going back it starts moved and comes to rest, going on the other way round.
abbrev slice1_now : Direction → ℕ → Style → List Call → List Call
slice1_now prev m st cs = slice1_css m st ∷ cs
slice1_now next m st cs = cs

abbrev slice2_now : Direction → ℕ → Style → List Call → List Call
slice2_now prev m st cs = slice2_css m st ∷ cs
slice2_now next m st cs = cs

abbrev later : Direction → Style → Style
later prev st = reset_style
later next st = st

abbrev margin_size : Orientation → Slider → ℕ
margin_size horizontal s = s.height
margin_size _ s = s.width

abbrev used_config : ℕ → Slider → Config
used_config m s = validate_values s.options (config_of (get_or (get_elem? s.slides m) no_data))

-- What `_navigate` does once it has the new slide.
unfoldable pub animate : Direction → ℕ → ℕ → Slider → Slider
unfolding slice1_style slice2_style set_timeout
animate d old new s =
    let m = moving_slide d old new in
    let c = used_config m s in
    let st1 = slice1_style s.options c in
    let st2 = slice2_style s.options c in
    let cs1 =
      cut m s.options.speed
      ∷ z_index m s.slides_count
      ∷ remove_trans_elems old
      ∷ before_change old new
      ∷ s.calls in
    let cs2 = slice2_now d m st2 (slice1_now d m st1 cs1) in
    record s {
      calls = show new ∷ content_margin m c.orientation (margin_size c.orientation s) ∷ cs2;
      timers =
          set_timeout (move_slice2 d old new m (later d st2))
            (set_timeout (move_slice1 d m (later d st1)) s.timers);
    }

unfoldable pub navigate : Direction → Option ℕ → Slider → Slider
unfolding animate
navigate d at s =
    if s.is_animating || ltb s.slides_count 2
    then s
    else animate d s.current (target d at s)
        (record s { is_animating = true; current = target d at s })

-- `_onEndNavigate`
unfoldable pub on_end_navigate : ℕ → ℕ → Slider → Slider
on_end_navigate m old s = record s {
  is_animating = false;
  listener = none;
  calls =
      after_change m s.current
      ∷ remove_classes m
      ∷ remove_classes old
      ∷ hide old
      ∷ unwrap m
      ∷ z_index m 1
      ∷ remove_second_slice m
      ∷ s.calls;
}

abbrev pub trans_class : Direction → ℕ → ℕ → Call
trans_class prev old new = add_back_elems old
trans_class next old new = add_trans_elems new

-- The second timer of a navigation: the slice moves, and the end of its transition is awaited; in
-- a browser without transitions the navigation ends at once.
unfoldable pub on_move_slice2 : Direction → ℕ → ℕ → ℕ → Style → Slider → Slider
unfolding on_end_navigate
on_move_slice2 d old new m st s =
    let t = record s { calls = trans_class d old new ∷ s.calls } in
    if s.support
    then record t {
      calls = slice2_css m st ∷ t.calls;
      listener = some (record { old = old; moving = m });
    }
    else on_end_navigate m old t

unfoldable pub start_slideshow : Slider → Slider
unfolding set_timeout
start_slideshow s = record s {
  timers = set_timeout tick s.timers;
  slideshow = some s.timers.next_id;
}

unfoldable pub stop_slideshow : Slider → Slider
unfolding clear_timeout
stop_slideshow s =
    if s.options.autoplay
    then record s {
      timers = clear_timeout s.slideshow s.timers;
      is_playing = false;
      options = record (s.options) { autoplay = false };
    }
    else s

-- The callback of the slideshow's timer.
unfoldable pub on_tick : Slider → Slider
on_tick s = let t = navigate next none s in if t.options.autoplay then start_slideshow t else t

unfoldable pub go_next : Slider → Slider
go_next s = navigate next none (stop_slideshow s)

unfoldable pub previous : Slider → Slider
previous s = navigate prev none (stop_slideshow s)

abbrev pub way_to : ℕ → Slider → Direction
way_to i s = if ltb s.current i then next else prev

-- `jump`, whose positions begin at 1; here `i` is the position less 1.
unfoldable pub jump_to : ℕ → Slider → Slider
jump_to i s =
    if i == s.current || leb s.slides_count i
    then s
    else navigate (way_to i s) (some i) (stop_slideshow s)

unfoldable pub jump : ℤ → Slider → Slider
unfolding jump_to
jump (negsuc n) s = s
jump (pos zero) s = s
jump (pos (suc i)) s = jump_to i s

unfoldable pub play : Slider → Slider
play s =
    if s.is_playing
    then s
    else let t = navigate next none (record s { is_playing = true }) in
      start_slideshow (record t { options = record (t.options) { autoplay = true } })

unfoldable pub pause : Slider → Slider
pause s = if s.is_playing then stop_slideshow s else s

-- `add`, with no callback.
unfoldable pub add : List SlideData → Slider → Slider
add new s = record s {
  slides = s.slides ++ new;
  slides_count = length (s.slides ++ new);
  calls = set_size s.width s.height ∷ s.calls;
}
