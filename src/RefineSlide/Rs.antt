-- ===== src/RefineSlide/Rs.antt =====
-- The slider object `RS` of assets/js/jquery.refineslide.js: its settings, the navigation, and the
-- start and the end of a `Transition`. What is asked of jQuery and of the caller's functions is
-- kept as a list of calls, the newest first.
pub mod Events
pub mod Frame
pub mod Hover
pub mod Kept
pub mod Lock
pub mod Tracking
use twitter_client_server.Prelude.{
  ℕ, zero, suc, ◌+◌, Bool, true, false, not, Option, none, some, List, [], ◌∷◌, if◌then◌else◌,
}
use twitter_client_server.Prelude.Int.{ℤ, pos, negsuc, ◌+ℤ◌, ◌-ℤ◌, sub_ℕ, ltb_ℤ, eqb_ℤ}
use twitter_client_server.Browser.{Timers, set_timeout, clear_timeout}
use twitter_client_server.RefineSlide.Transition.{
  Name, cube_v, slice_v, kaleidoscope, Plan, fade_js, Env, plan,
}
use mathlib.Core.Option.{get_or}

pub data Controls : Type 0 where
  thumbs arrows no_controls : Controls

pub record Settings : Type 0 where
  pub transition : Name
  pub fallback3d : Name
  pub controls : Controls
  pub auto_play : Bool
  pub delay : ℕ
  pub transition_duration : ℕ
  pub start_slide : ℕ
  pub key_nav : Bool

pub record Overrides : Type 0 where
  pub transition : Option Name
  pub fallback3d : Option Name
  pub controls : Option Controls
  pub auto_play : Option Bool
  pub delay : Option ℕ
  pub transition_duration : Option ℕ
  pub start_slide : Option ℕ
  pub key_nav : Option Bool

abbrev pub defaults : Settings
defaults = record {
  transition = kaleidoscope;
  fallback3d = slice_v;
  controls = arrows;
  auto_play = false;
  delay = 5000;
  transition_duration = 800;
  start_slide = 0;
  key_nav = true;
}

-- `jQuery.extend({}, defaults, settings)`
abbrev pub extend : Overrides → Settings
extend o = record {
  transition = get_or o.transition defaults.transition;
  fallback3d = get_or o.fallback3d defaults.fallback3d;
  controls = get_or o.controls defaults.controls;
  auto_play = get_or o.auto_play defaults.auto_play;
  delay = get_or o.delay defaults.delay;
  transition_duration = get_or o.transition_duration defaults.transition_duration;
  start_slide = get_or o.start_slide defaults.start_slide;
  key_nav = get_or o.key_nav defaults.key_nav;
}

-- Slides are named by their index.
pub data Call : Type 0 where
  on_init on_change after_change : Call
  z_index opacity caption_opacity : ℤ → ℕ → Call
  remove_style : ℤ → Call
  remove_slider_style setup_plan execute_plan reset_plan : Call
  thumbs_inactive append_arrows set_captions : Call
  thumb_active : ℤ → Call

pub data Callback : Type 0 where
  cycle execute : Callback

-- What ends the running transition: the event of a CSS transition, or the callback of `animate`.
pub data Ending : Type 0 where
  css_end js_end : Ending

pub record Rs : Type 0 where
  pub settings : Settings
  pub total_slides : ℕ
  pub css_transitions : Bool
  pub css_transforms3d : Bool
  pub slide_width : ℕ
  pub slide_height : ℕ
  pub current_place : ℤ
  pub current_slide : ℤ
  pub next_slide : ℤ
  pub in_progress : Bool
  pub ending : Option Ending
  pub cycling : Option ℕ
  pub timers : Timers Callback
  pub calls : List Call

-- The code sets no limit to the calls by which a transition finds its animation; a browser's
-- stack is one.
abbrev pub stack_limit : ℕ
stack_limit = 10000

abbrev pub env_of : Rs → Bool → Name → Env
env_of s forward pick = record {
  css_transitions = s.css_transitions;
  css_transforms3d = s.css_transforms3d;
  fallback3d = s.settings.fallback3d;
  forward = forward;
  slide_width = s.slide_width;
  slide_height = s.slide_height;
  pick = pick;
}

-- `before`: the slides are put on top of one another, the captions are changed, and the animation
-- runs after 40 ms if it was set up, at once if not. In a browser without CSS transitions the
-- animation is always `fade`, which then has no `setup` and ends by its own callback.
unfoldable pub before : Rs → Rs
unfolding set_timeout
before s =
    let cs =
      caption_opacity s.next_slide 1
      ∷ caption_opacity s.current_slide 0
      ∷ z_index s.next_slide 1
      ∷ opacity s.next_slide 1
      ∷ z_index s.current_slide 2
      ∷ s.calls in
    if s.css_transitions
    then record s {
      calls = setup_plan ∷ cs;
      timers = set_timeout execute s.timers;
      ending = some css_end;
    }
    else record s { calls = execute_plan ∷ cs; ending = some js_end }

-- `new Transition( … )`: the lock is set, and the transition's method is called. A transition that
-- calls itself without end throws, and leaves the lock set.
unfoldable pub begin : Option Plan → Rs → Rs
unfolding before
begin none s = record s { in_progress = true }
begin (some p) s = before (record s { in_progress = true })

-- After the constructor has returned.
abbrev thumb_calls : Controls → ℤ → List Call → List Call
thumb_calls thumbs i cs = thumb_active i ∷ thumbs_inactive ∷ cs
thumb_calls _ i cs = cs

unfoldable pub marks : Option Plan → ℤ → Rs → Rs
marks none i s = s
marks (some p) i s = record s { calls = thumb_calls s.settings.controls i s.calls }

abbrev pub heading : Option Bool → ℤ → ℤ → Bool
heading (some f) i place = f
heading none i place = ltb_ℤ place i

-- What a transition to slide `i` comes down to; `pick` is what `random` would draw.
abbrev pub chosen_plan : Name → ℤ → Option Bool → Rs → Option Plan
chosen_plan pick i forward s =
    plan stack_limit (env_of s (heading forward i s.current_place) pick) s.settings.transition

abbrev moved : ℤ → Rs → Rs
moved i s = record s { next_slide = i; current_place = i; calls = on_change ∷ s.calls }

unfoldable pub transition_with : Option Plan → ℤ → Rs → Rs
unfolding begin marks
transition_with p i s =
    if s.in_progress
    then s
    else if eqb_ℤ i s.current_place
    then s
    else marks p i (begin p (moved i s))

unfoldable pub transition : Name → ℤ → Option Bool → Rs → Rs
transition pick i forward s = transition_with (chosen_plan pick i forward s) i s

unfoldable pub set_auto_play : Rs → Rs
unfolding set_timeout
set_auto_play s = record s { timers = set_timeout cycle s.timers; cycling = some s.timers.next_id }

unfoldable pub clear_cycling : Rs → Rs
unfolding clear_timeout
clear_cycling s = record s { timers = clear_timeout s.cycling s.timers }

-- `Transition.after`
unfoldable pub after : Rs → Rs
unfolding set_auto_play clear_cycling
after s =
    let t = record s {
      calls =
          reset_plan
          ∷ opacity s.next_slide 1
          ∷ z_index s.next_slide 2
          ∷ remove_style s.next_slide
          ∷ opacity s.current_slide 0
          ∷ remove_style s.current_slide
          ∷ remove_slider_style
          ∷ s.calls;
      ending = none;
    } in
    let u = if s.settings.auto_play then set_auto_play (clear_cycling t) else t in
    record u { current_slide = u.next_slide; in_progress = false; calls = after_change ∷ u.calls }

-- The last slide is that with index `totalSlides - 1`.
abbrev pub next_place : Rs → ℤ
next_place s =
    if eqb_ℤ s.current_place (sub_ℕ s.total_slides 1) then pos 0 else s.current_place +ℤ pos 1

abbrev pub prev_place : Rs → ℤ
prev_place s =
    if eqb_ℤ s.current_place (pos 0) then sub_ℕ s.total_slides 1 else s.current_place -ℤ pos 1

unfoldable pub next : Name → Rs → Rs
next pick s = transition pick (next_place s) (some true) s

unfoldable pub prev : Name → Rs → Rs
prev pick s = transition pick (prev_place s) (some false) s
