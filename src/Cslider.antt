-- ===== src/Cslider.antt =====
-- The slider at the head of the feed page: assets/js/jquery.cslider.js of the client, the slider
-- object with its navigation. What jQuery is asked to do to the page is kept as a list of calls,
-- the newest first.
pub mod Events
pub mod Frame
pub mod Bounds
pub mod Slideshow
pub mod Lock
pub mod Dots
pub mod Cycle
pub mod Same
pub mod Deaf
pub mod Examples
use twitter_client_server.Prelude.{
  ℕ, zero, suc, ◌≡◌, Bool, true, false, not, ◌||◌, Option, none, some, List, [], ◌∷◌, if◌then◌else◌,
  ◌==◌,
}
use twitter_client_server.Prelude.Int.{ℤ, pos, negsuc, ◌+ℤ◌, ◌-ℤ◌, ◌*ℤ◌, ltb_ℤ, leb_ℤ, eqb_ℤ, sub_ℕ}
use twitter_client_server.Browser.{Timers, no_timers, set_timeout, clear_timeout}
use mathlib.Core.Option.{get_or}

pub record Options : Type 0 where
  pub start : ℤ  -- `current`
  pub bgincrement : ℕ
  pub autoplay : Bool
  pub interval : ℕ

pub record Overrides : Type 0 where
  pub start : Option ℤ
  pub bgincrement : Option ℕ
  pub autoplay : Option Bool
  pub interval : Option ℕ

abbrev pub defaults : Options
defaults = record { start = pos 0; bgincrement = 50; autoplay = false; interval = 4000 }

-- `$.extend( true, {}, $.Slider.defaults, options )`
abbrev pub extend : Overrides → Options
extend o = record {
  start = get_or o.start defaults.start;
  bgincrement = get_or o.bgincrement defaults.bgincrement;
  autoplay = get_or o.autoplay defaults.autoplay;
  interval = get_or o.interval defaults.interval;
}

pub data Direction : Type 0 where
  next prev : Direction

-- The classes that the script sets, without their prefix `da-`.
pub data Class : Type 0 where
  slide_current slide_toleft slide_toright slide_fromleft slide_fromright : Class
  slider_fb dots_current : Class

-- What a call is made on: `$el`, `$slides.eq( i )`, `$pages.eq( i )`, `$pages`.
pub data Target : Type 0 where
  element all_dots : Target
  slide dot : ℤ → Target

pub data Call : Type 0 where
  add_class : Target → Class → Call
  remove_class : Target → List Class → Call
  append_dots : ℕ → Call
  css_background_position : ℤ → Call  -- in percent
  css_left animate_left : ℤ → ℤ → Call  -- a slide, and its `left` in percent

-- The callbacks of the two animations of the fallback, each with the slide that is animated.
pub data Completion : Type 0 where
  unlock unmark : ℤ → Completion

-- The listener that ends an animation: on the end of a CSS animation, or of a CSS transition.
pub data EndListener : Type 0 where
  no_listener animation_end transition_end : EndListener

-- The one callback that is given to `setTimeout`.
pub data Callback : Type 0 where
  tick : Callback

pub record Slider : Type 0 where
  pub options : Options
  pub slides_count : ℕ
  pub current : ℤ
  pub is_animating : Bool
  pub bgpositer : ℤ
  pub css_animations : Bool
  pub css_transitions : Bool
  pub slideshow : Option ℕ
  pub end_listener : EndListener
  pub timers : Timers Callback
  pub animations : List Completion
  pub calls : List Call

abbrev emit : Call → Slider → Slider
emit c s = record s { calls = c ∷ s.calls }

unfoldable pub update_page : Slider → Slider
update_page s =
    emit (add_class (dot s.current) dots_current)
      (emit (remove_class all_dots (dots_current ∷ [])) s)

abbrev pub direction : Option Direction → ℤ → ℤ → Direction
direction (some d) page current = d
direction none page current = if ltb_ℤ current page then next else prev

-- The classes that the old and the new slide take.
abbrev class_to : Direction → Class
class_to next = slide_toleft
class_to prev = slide_toright

abbrev class_from : Direction → Class
class_from next = slide_fromright
class_from prev = slide_fromleft

abbrev pub turn : Direction → ℤ → ℤ
turn next b = b +ℤ pos 1
turn prev b = b -ℤ pos 1

shift_background : Direction → Slider → Slider
unfolding ◌+ℤ◌ ◌-ℤ◌ ◌*ℤ◌
shift_background d s =
    let b = turn d s.bgpositer in
    if s.css_animations
    then emit (css_background_position (b *ℤ pos s.options.bgincrement))
        (record s { bgpositer = b })
    else s

abbrev rm_classes : List Class
rm_classes = slide_toleft ∷ slide_toright ∷ slide_fromleft ∷ slide_fromright ∷ []

animate_classes : Direction → ℤ → Slider → Slider
animate_classes d old s =
    if s.css_animations
    then record s {
      calls =
          add_class (slide s.current) slide_current
          ∷ remove_class (slide old) (slide_current ∷ [])
          ∷ add_class (slide s.current) (class_from d)
          ∷ add_class (slide old) (class_to d)
          ∷ remove_class (slide s.current) rm_classes
          ∷ remove_class (slide old) rm_classes
          ∷ s.calls;
    }
    else s

-- `stop()` on a slide drops its running animation with the callback.
stop : ℤ → List Completion → List Completion
stop i [] = []
stop i (unlock j ∷ rest) = if eqb_ℤ j i then stop i rest else unlock j ∷ stop i rest
stop i (unmark j ∷ rest) = if eqb_ℤ j i then stop i rest else unmark j ∷ stop i rest

abbrev left_of : Direction → ℤ
left_of next = pos 100
left_of prev = negsuc 99

abbrev opposite : Direction → Direction
opposite next = prev
opposite prev = next

fallback : Direction → ℤ → Slider → Slider
unfolding stop
fallback d old s =
    if not s.css_animations
    then record s {
      calls =
          animate_left old (left_of (opposite d))
          ∷ animate_left s.current (pos 0)
          ∷ css_left s.current (left_of d)
          ∷ s.calls;
      animations = unmark old ∷ stop old (unlock s.current ∷ stop s.current s.animations);
    }
    else s

unfoldable pub navigate : ℤ → Option Direction → Slider → Slider
unfolding shift_background animate_classes fallback update_page
navigate page dir s =
    let d = direction dir page s.current in
    if eqb_ℤ s.current page || s.is_animating
    then s
    else update_page (
        fallback d s.current (
          animate_classes d s.current
            (record (shift_background d (record s { is_animating = true })) { current = page })))

unfoldable pub start_slideshow : Slider → Slider
unfolding set_timeout
start_slideshow s = record s {
  timers = set_timeout tick s.timers;
  slideshow = some s.timers.next_id;
}

-- What the handlers do before they navigate.
unfoldable pub stop_slideshow : Slider → Slider
unfolding clear_timeout
stop_slideshow s =
    if s.options.autoplay
    then record s {
      timers = clear_timeout s.slideshow s.timers;
      options = record (s.options) { autoplay = false };
    }
    else s

abbrev pub next_page : Slider → ℤ
next_page s = if ltb_ℤ s.current (sub_ℕ s.slides_count 1) then s.current +ℤ pos 1 else pos 0

abbrev pub prev_page : Slider → ℤ
prev_page s = if ltb_ℤ (pos 0) s.current then s.current -ℤ pos 1 else sub_ℕ s.slides_count 1

unfoldable pub page : ℤ → Slider → Slider
page idx s =
    if leb_ℤ (pos s.slides_count) idx || ltb_ℤ idx (pos 0)
    then s
    else navigate idx none (stop_slideshow s)
