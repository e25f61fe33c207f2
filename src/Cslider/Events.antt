-- ===== src/Cslider/Events.antt =====
-- The slider's start and its event handlers: `_init`, `_loadEvents`, the ticks of the slideshow,
-- and the plugin function of assets/js/jquery.cslider.js.
use twitter_client_server.Prelude.{
  ℕ, zero, suc, Bool, true, false, not, ◌||◌, Option, none, some, List, [], ◌∷◌, if◌then◌else◌,
}
use twitter_client_server.Prelude.Int.{ℤ, pos, ltb_ℤ, leb_ℤ}
use twitter_client_server.Browser.{no_timers, find, remove}
use twitter_client_server.Cslider.{
  Options, Overrides, extend, next, prev, add_class, append_dots, slide, element, slide_current,
  slider_fb, Completion, unlock, unmark, remove_class, EndListener, no_listener, animation_end,
  transition_end, tick, Slider, emit, update_page, navigate, start_slideshow, stop_slideshow,
  next_page, prev_page, page,
}
use text.Mathlib.Text.{◌==◌ as str_eq, starts_with}
use Prim.Native.String.{String}

-- What the script reads of Modernizr.
pub record Modernizr : Type 0 where
  pub cssanimations : Bool
  pub csstransitions : Bool

abbrev end_of : Bool → ℕ → EndListener
end_of false increment = no_listener
end_of true zero = animation_end
end_of true (suc _) = transition_end

load_events : Slider → Slider
load_events s = record s { end_listener = end_of s.css_transitions s.options.bgincrement }

abbrev pub within : ℤ → ℕ → ℤ
within i count = if ltb_ℤ i (pos 0) || leb_ℤ (pos count) i then pos 0 else i

abbrev created : Modernizr → ℕ → Options → Slider
created m count options = record {
  options = options;
  slides_count = count;
  current = within options.start count;
  is_animating = false;
  bgpositer = pos 0;
  css_animations = m.cssanimations;
  css_transitions = m.csstransitions;
  slideshow = none;
  end_listener = no_listener;
  timers = no_timers;
  animations = [];
  calls = append_dots count ∷ add_class (slide (within options.start count)) slide_current ∷ [];
}

add_fallback_class : Slider → Slider
add_fallback_class s =
    if not s.css_animations || not s.css_animations then emit (add_class element slider_fb) s else s

-- The elements are the `count` slides that `$el` holds when the slider is made.
unfoldable pub init : Modernizr → ℕ → Overrides → Slider
unfolding add_fallback_class update_page load_events start_slideshow
init m count o =
    let s = load_events (update_page (add_fallback_class (created m count (extend o)))) in
    if s.options.autoplay then start_slideshow s else s

unfoldable pub click_next : Slider → Slider
click_next s = let s' = stop_slideshow s in navigate (next_page s') (some next) s'

unfoldable pub click_prev : Slider → Slider
click_prev s = let s' = stop_slideshow s in navigate (prev_page s') (some prev) s'

-- The callback of the slideshow's timer.
unfoldable pub on_tick : Slider → Slider
on_tick s =
    let s' = navigate (next_page s) (some next) s in
    if s'.options.autoplay then start_slideshow s' else s'

-- The animation whose end a browser reports, by its name in the style sheet.
pub data AnimationName : Type 0 where
  to_right_anim4 to_left_anim4 other_animation : AnimationName

abbrev is_anim4 : AnimationName → Bool
is_anim4 to_right_anim4 = true
is_anim4 to_left_anim4 = true
is_anim4 other_animation = false

abbrev unlocked : Slider → Slider
unlocked s = record s { is_animating = false }

unfoldable pub on_animation_end : AnimationName → Slider → Slider
on_animation_end name s = elim s.end_listener [
  | animation_end ↦ if is_anim4 name then unlocked s else s
  | _ ↦ s
]

-- `own` tells whether the event's target has the id of the slider's element.
unfoldable pub on_transition_end : Bool → Slider → Slider
on_transition_end own s = elim s.end_listener [
  | transition_end ↦ if own then unlocked s else s
  | _ ↦ s
]

abbrev complete : Completion → Slider → Slider
complete (unlock i) s = unlocked s
complete (unmark i) s = emit (remove_class (slide i) (slide_current ∷ [])) s

-- The animation at place `k` of those that run has ended.
unfoldable pub take_animation : ℕ → List Completion → Option (Completion × List Completion)
take_animation k [] = none
take_animation zero (c ∷ rest) = some (c, rest)
take_animation (suc k) (c ∷ rest) = elim (take_animation k rest) [
  | none ↦ none
  | some (d, others) ↦ some (d, c ∷ others)
]

unfoldable pub on_animated : ℕ → Slider → Slider
on_animated k s = elim (take_animation k s.animations) [
  | none ↦ s
  | some (c, rest) ↦ complete c (record s { animations = rest })
]

-- The timer `h` runs out: it is no longer pending.
abbrev pub elapsed : ℕ → Slider → Slider
elapsed h s = record s { timers = record (s.timers) { pending = remove h s.timers.pending } }

unfoldable pub on_timer : ℕ → Slider → Slider
on_timer h s = elim (find h s.timers.pending) [ none ↦ s | some tick ↦ on_tick (elapsed h s) ]

-- Everything that can happen to a slider.
pub data Event : Type 0 where
  click_dot call_page : ℤ → Event
  click_arrow_next click_arrow_prev : Event
  timer animated : ℕ → Event
  animation_ended : AnimationName → Event
  transition_ended : Bool → Event

unfoldable pub step : Slider → Event → Slider
step s (click_dot i) = page i s
step s (call_page i) = page i s
step s click_arrow_next = click_next s
step s click_arrow_prev = click_prev s
step s (timer h) = on_timer h s
step s (animated k) = on_animated k s
step s (animation_ended name) = on_animation_end name s
step s (transition_ended own) = on_transition_end own s

unfoldable pub run : Slider → List Event → Slider
run s [] = s
run s (e ∷ es) = run (step s e) es

-- `$( el ).cslider( … )` on one element, which holds its slider or none.
pub data Outcome : Type 0 where
  unchanged : Outcome
  logged : String → Outcome  -- `logError`
  slider : Slider → Outcome

abbrev is_method : String → Bool
is_method m =
    str_eq m "_init"
    || (str_eq m "_navigate"
        || (str_eq m "_updatePage"
            || (str_eq m "_startSlideshow" || (str_eq m "page" || str_eq m "_loadEvents"))))

unfoldable pub call_method : Option Slider → String → ℤ → Outcome
call_method none m arg = logged "cannot call methods on cslider prior to initialization"
call_method (some s) m arg =
    if not (is_method m) || starts_with m "_" then logged "no such method" else slider (page arg s)

unfoldable pub create : Modernizr → ℕ → Option Slider → Overrides → Outcome
create m count none o = slider (init m count o)
create m count (some s) o = unchanged
