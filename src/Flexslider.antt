-- ===== src/Flexslider.antt =====
-- The slider object of assets/js/jquery.flexslider.js: `flexAnimate`, `wrapup`, `canAdvance`,
-- `getTarget` and the slideshow, for a slider that has at least one slide, is no carousel, steers no
-- other slider and mirrors none (`itemWidth`, `asNavFor` and `sync` are their defaults). What is
-- asked of jQuery and of the caller's functions is a list of calls, the newest first.
pub mod Events
pub mod Prepared
pub mod Steps
pub mod Strip
pub mod Carousel
pub mod Controls
pub mod Slides
pub mod Ends
pub mod LastStart
pub mod Lock
pub mod Examples
use twitter_client_server.Prelude.{
  ℕ, suc, ◌+◌, ◌-◌, Bool, true, false, not, ◌&&◌, ◌||◌, Option, none, some, List, [], ◌∷◌,
  if◌then◌else◌, ◌==◌, ltb,
}
use twitter_client_server.Prelude.Int.{ℤ, pos, sub_ℕ}
use twitter_client_server.Browser.{Timers, set_timeout, clear_timeout}

pub data Direction : Type 0 where
  next prev : Direction

pub record Options : Type 0 where
  pub fade : Bool  -- `animation` is "fade", the other is "slide"
  pub reverse : Bool
  pub animation_loop : Bool
  pub start_at : ℕ
  pub slideshow : Bool
  pub pause_on_action : Bool
  pub pause_on_hover : Bool
  pub keyboard : Bool
  pub mousewheel : Bool

abbrev pub defaults : Options
defaults = record {
  fade = true;
  reverse = false;
  animation_loop = true;
  start_at = 0;
  slideshow = true;
  pause_on_action = true;
  pause_on_hover = false;
  keyboard = true;
  mousewheel = false;
}

pub data Call : Type 0 where
  before after end_of_cycle : Call
  control_active slide_active fade_out fade_in show_css hide_css : ℕ → Call

-- What ends a running animation by `wrapup`: the listener for the end of a CSS transition, which
-- stays, or the callback of `animate` or `fadeIn`.
pub data Ending : Type 0 where
  css_end js_end : Ending

-- The one callback that is given to `setInterval`; an interval stays pending.
pub data Callback : Type 0 where
  animate_slides : Callback

-- Which arrows bear the class `disabled`.
pub record Arrows : Type 0 where
  pub prev_disabled : Bool
  pub next_disabled : Bool

-- `position` is where the strip of slides stands, to the left and in units of a slide.
pub record Slider : Type 0 where
  pub options : Options
  pub touch : Bool
  pub transitions : Bool
  pub visible : Bool
  pub last : ℕ
  pub clone_offset : ℕ
  pub animating : Bool
  pub current_slide : ℕ
  pub animating_to : ℕ
  pub at_end : Bool
  pub direction : Option Direction
  pub playing : Bool
  pub manual_pause : Bool
  pub manual_play : Bool
  pub animated_slides : Option ℕ
  pub intervals : Timers Callback
  pub position : ℤ
  pub ending : Option Ending
  pub arrows : Arrows
  pub calls : List Call

abbrev pub count : Slider → ℕ
count s = s.last + 1

-- `directionNav.update`, which reads `animatingTo` and `last`; `doMath` makes `pagingCount` the number
-- of slides.
unfoldable pub arrows_for : Bool → ℕ → ℕ → Arrows
arrows_for loop t last =
    if last + 1 == 1
    then record { prev_disabled = true; next_disabled = true }
    else if not loop
    then (if t == 0
        then record { prev_disabled = true; next_disabled = false }
        else if t == last
        then record { prev_disabled = false; next_disabled = true }
        else record { prev_disabled = false; next_disabled = false })
    else record { prev_disabled = false; next_disabled = false }

unfoldable pub update_arrows : Slider → Slider
update_arrows s = record s { arrows = arrows_for s.options.animation_loop s.animating_to s.last }

abbrev pub is_dir : Direction → Option Direction → Bool
is_dir d none = false
is_dir next (some next) = true
is_dir prev (some prev) = true
is_dir _ _ = false

-- `getTarget`, which also keeps the direction
abbrev pub headed : Direction → Slider → Slider
headed d s = record s { direction = some d }

abbrev pub target : Direction → Slider → ℕ
target next s = if s.current_slide == s.last then 0 else s.current_slide + 1
target prev s = if s.current_slide == 0 then s.last else s.current_slide - 1

unfoldable pub can_advance : ℕ → Slider → Bool
can_advance t s =
    if t == s.current_slide
    then false
    else if s.options.animation_loop
    then true
    else if s.at_end && (s.current_slide == 0 && (t == s.last && not (is_dir next s.direction)))
    then false
    else not (s.at_end && (s.current_slide == s.last && (t == 0 && is_dir next s.direction)))

unfoldable pub pause : Slider → Slider
unfolding clear_timeout
pause s = record s { intervals = clear_timeout s.animated_slides s.intervals; playing = false }

unfoldable pub play : Slider → Slider
unfolding set_timeout
play s = record s {
  intervals = set_timeout animate_slides s.intervals;
  animated_slides = some s.intervals.next_id;
  playing = true;
}

-- Where the strip shows a slide, with a clone of the last slide before the first in a loop.
abbrev pub place : Slider → ℕ → ℤ
place s t =
    if s.options.reverse then sub_ℕ (count s - 1 + s.clone_offset) t else pos (t + s.clone_offset)

-- `slideString`
abbrev pub slide_string : ℕ → Slider → ℤ
slide_string t s =
    if s.current_slide == 0
      && (t == count s - 1 && (s.options.animation_loop && not (is_dir next s.direction)))
    then (if s.options.reverse then pos (count s + s.clone_offset) else pos 0)
    else if s.current_slide == s.last
        && (t == 0 && (s.options.animation_loop && not (is_dir prev s.direction)))
    then (if s.options.reverse then pos 0 else pos (count s + 1))
    else place s t

abbrev pub arrived : Slider → Slider
arrived s = record s { animating = false; current_slide = s.animating_to }

-- The animation of the strip.
unfoldable pub slide_to : ℕ → Slider → Slider
slide_to t s =
    let m = record s { position = slide_string t s } in
    if s.transitions
    then (let u = record m { ending = some css_end } in
        if not s.options.animation_loop || not s.at_end then arrived u else u)
    else record m { ending = some js_end }

-- The animation by fading, with a different ending on a touch screen.
unfoldable pub fade_to : ℕ → Slider → Slider
fade_to t s =
    if not s.touch
    then record s { calls = fade_in t ∷ fade_out s.current_slide ∷ s.calls; ending = some js_end }
    else arrived (record s { calls = show_css t ∷ hide_css s.current_slide ∷ s.calls })

-- `flexAnimate`, once it is under way, in three steps: up to the slideshow, up to the arrows, and
-- the end of a cycle.
unfoldable pub begun : ℕ → Bool → Slider → Slider
begun t paused s =
    let b = record s { animating = true; animating_to = t; calls = before ∷ s.calls } in
    if paused then pause b else b

unfoldable pub marked : ℕ → Slider → Slider
unfolding update_arrows
marked t s = update_arrows (record s {
  calls = slide_active t ∷ control_active t ∷ s.calls;
  at_end = (t == 0) || (t == s.last);
})

unfoldable pub cycled : ℕ → Slider → Slider
cycled t s =
    let f = record s { calls = end_of_cycle ∷ s.calls } in
    if t == s.last then (if not s.options.animation_loop then pause f else f) else s

abbrev pub prepared : ℕ → Bool → Slider → Slider
prepared t paused s = cycled t (marked t (begun t paused s))

unfoldable pub advance : ℕ → Bool → Slider → Slider
advance t paused s =
    if s.options.fade then fade_to t (prepared t paused s) else slide_to t (prepared t paused s)

unfoldable pub flex_animate : ℕ → Bool → Slider → Slider
flex_animate t paused s =
    if not s.animating && (can_advance t s && s.visible) then advance t paused s else s

-- The strip jumps from a clone to the slide that it is a clone of.
abbrev pub jumped : Slider → Slider
jumped s =
    if s.options.fade
    then s
    else if s.current_slide == 0 && (s.animating_to == s.last && s.options.animation_loop)
    then record s { position = if s.options.reverse then pos 1 else pos (count s) }
    else if s.current_slide == s.last && (s.animating_to == 0 && s.options.animation_loop)
    then record s { position = if s.options.reverse then pos (count s) else pos 1 }
    else s

unfoldable pub wrapup : Slider → Slider
wrapup s = let j = arrived (jumped s) in record j { calls = after ∷ j.calls }
