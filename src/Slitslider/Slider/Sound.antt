-- ===== src/Slitslider/Slider/Sound.antt =====
-- What holds of the slider of assets/js/jquery.slitslider.js between two events.
pub mod Steps
use twitter_client_server.Prelude.{
  ℕ, zero, suc, ◌+◌, ◌-◌, ◌≤◌, ◌<◌, ◌≡◌, ◌≢◌, refl, Bool, true, false, ◌||◌, ◌⊎◌, inl, inr, Option,
  none, some, List, [], ◌∷◌, ◌++◌, arith, if◌then◌else◌, ◌==◌, ltb, leb, Bool-cases, Option-cases,
  length, length-append, ap, ◌∙◌,
}
use twitter_client_server.Prelude.Int.{ℤ, pos, negsuc}
use twitter_client_server.Browser.{Timers, no_timers, set_timeout, remove, clear_timeout, find}
use twitter_client_server.Browser.Laws.{
  IsFresh, count, set_timeout-IsFresh, remove-IsFresh, remove_absent, count-remove,
  find-remove_self, find-remove_ne,
}
use twitter_client_server.Slitslider.{Overrides, SlideData, Style, Options, extend}
use twitter_client_server.Slitslider.Slider.{
  Direction, next, prev, Call, slice1_css, trans_class, Callback, move_slice1, move_slice2, tick,
  Listener, Slider, target, animate, navigate, on_end_navigate, on_move_slice2, start_slideshow,
  stop_slideshow, on_tick, go_next, previous, way_to, jump_to, jump, play, pause, add,
}
use twitter_client_server.Slitslider.Slider.Events.{
  created, init, on_key, on_resize, elapsed, run_callback, on_timer, on_transition_end, Event, key,
  resize, timer, transition_end, call_next, call_previous, call_play, call_pause, call_jump,
  call_add, step, run,
}

abbrev pub is_slice2 : Callback → Bool
is_slice2 (move_slice2 d old new m st) = true
is_slice2 _ = false

abbrev pub awaited : Option Listener → ℕ
awaited none = 0
awaited (some l) = 1

-- The handle that is kept is that of the slideshow's timer, or of none that is pending.
abbrev pub Handle : Option ℕ → Timers Callback → Type 0
Handle none t = Unit
Handle (some h) t = (h < t.next_id) × ((find h t.pending ≡ none) ⊎ (find h t.pending ≡ some tick))

-- The number of slides is known; the current one is among them, or there is none and it is 0; handles
-- are fresh; and the slider is animating exactly while one end of a navigation is still to come: the second timer of the
-- navigation, or the end of the transition that it started.
pub record IsSound (s : Slider) : Type 0 where
  pub size : s.slides_count ≡ length s.slides
  pub below : (s.current < s.slides_count) ⊎ ((s.current ≡ 0) × (s.slides_count ≡ 0))
  pub fresh : IsFresh s.timers
  pub handle : Handle s.slideshow s.timers
  pub busy :
      count is_slice2 s.timers.pending + awaited s.listener ≡ (if s.is_animating then 1 else 0)

pub set_timeout-Handle :
    (h : Option ℕ) (c : Callback) (t : Timers Callback) → Handle h t → Handle h (set_timeout c t)
unfolding set_timeout find
set_timeout-Handle none c t v = tt
set_timeout-Handle (some h) c t v = ground arith

pub remove-Handle :
    (h : Option ℕ) (k : ℕ) (t : Timers Callback)
    → Handle h t
    → Handle h (record t { pending = remove k t.pending })
remove-Handle none k t v = tt
remove-Handle (some h) k t v = elim (Bool-cases (k == h)) [
  | inl e ↦ (v.0, inl (ground (arith, find-remove_self k t.pending)))
  | inr e ↦ ground (arith, find-remove_ne k h t.pending)
]

pub target-below :
    (d : Direction) (s : Slider) → IsSound s → 0 < s.slides_count → target d none s < s.slides_count
target-below next s v h = ground arith
target-below prev s v h = ground arith

-- A position that is passed is that of a slide.
abbrev pub Fits : Option ℕ → ℕ → Type 0
Fits none n = Unit
Fits (some i) n = i < n

pub target-Fits :
    (d : Direction) (at : Option ℕ) (s : Slider)
    → IsSound s
    → Fits at s.slides_count
    → 0 < s.slides_count
    → target d at s < s.slides_count
target-Fits d none s v f h = target-below d s v h
target-Fits next (some i) s v f h = f
target-Fits prev (some i) s v f h = f

pub navigate-IsSound :
    (d : Direction) (at : Option ℕ) (s : Slider)
    → Fits at s.slides_count
    → IsSound s
    → IsSound (navigate d at s)
unfolding navigate animate count
navigate-IsSound d at s f v = elim (Bool-cases (s.is_animating || ltb s.slides_count 2)) [
  | inl e ↦ rw e v
  | inr e ↦ rw e (record {
    size = v.size;
    below = inl (target-Fits d at s v f (ground arith));
    fresh = set_timeout-IsFresh _ _ (set_timeout-IsFresh _ _ v.fresh);
    handle = set_timeout-Handle s.slideshow _ _ (set_timeout-Handle s.slideshow _ _ v.handle);
    busy = ground arith;
  })
]

pub navigate_pending :
    (d : Direction) (at : Option ℕ) (s : Slider) → (navigate d at s).slides_count ≡ s.slides_count
unfolding navigate
navigate_pending d at s = ground arith

-- A slider whose timers have changed, but for none of the second kind.
pub retimed-IsSound :
    (s : Slider) (t : Timers Callback) (h : Option ℕ)
    → IsSound s
    → IsFresh t
    → Handle h t
    → count is_slice2 t.pending ≡ count is_slice2 s.timers.pending
    → IsSound (record s { timers = t; slideshow = h })
retimed-IsSound s t h v f k e = record {
  size = v.size;
  below = v.below;
  fresh = f;
  handle = k;
  busy = ap (λ (n : ℕ). n + awaited s.listener) e ∙ v.busy;
}

pub new-Handle : (t : Timers Callback) → Handle (some t.next_id) (set_timeout tick t)
unfolding set_timeout find
new-Handle t = (omega arith, inr (ground arith))

-- A branch of the code.
pub if-IsSound : (b : Bool) (s t : Slider) → IsSound s → IsSound t → IsSound (if b then s else t)
if-IsSound true s t v w = v
if-IsSound false s t v w = w

pub start_slideshow-IsSound : (s : Slider) → IsSound s → IsSound (start_slideshow s)
unfolding start_slideshow count
start_slideshow-IsSound s v =
    retimed-IsSound s (set_timeout tick s.timers) (some s.timers.next_id) v
      (set_timeout-IsFresh tick s.timers v.fresh) (new-Handle s.timers) refl

pub clear-IsFresh : (h : Option ℕ) (t : Timers Callback) → IsFresh t → IsFresh (clear_timeout h t)
unfolding clear_timeout
clear-IsFresh none t f = f
clear-IsFresh (some h) t f = remove-IsFresh h t f

pub clear-Handle : (h : Option ℕ) (t : Timers Callback) → Handle h t → Handle h (clear_timeout h t)
unfolding clear_timeout
clear-Handle none t v = tt
clear-Handle (some h) t v = remove-Handle (some h) h t v

-- Clearing the slideshow's timer clears no other.
pub clear-count :
    (h : Option ℕ) (t : Timers Callback)
    → IsFresh t
    → Handle h t
    → count is_slice2 (clear_timeout h t).pending ≡ count is_slice2 t.pending
unfolding clear_timeout
clear-count none t f v = refl
clear-count (some h) t f (l, inl e) = ap (count is_slice2) (remove_absent h t.pending e)
clear-count (some h) t f (l, inr e) =
    omega (arith, count-remove is_slice2 h t.pending tick f.distinct e)

pub stop_slideshow-IsSound : (s : Slider) → IsSound s → IsSound (stop_slideshow s)
unfolding stop_slideshow
stop_slideshow-IsSound s v =
    if-IsSound s.options.autoplay _ s
      (record {
        size = v.size;
        below = v.below;
        fresh = clear-IsFresh s.slideshow s.timers v.fresh;
        handle = clear-Handle s.slideshow s.timers v.handle;
        busy =
            ap (λ (n : ℕ). n + awaited s.listener)
              (clear-count s.slideshow s.timers v.fresh v.handle)
            ∙ v.busy;
      })
      v

pub rearm-IsSound :
    (s : Slider) → IsSound s → IsSound (if s.options.autoplay then start_slideshow s else s)
rearm-IsSound s v =
    if-IsSound s.options.autoplay (start_slideshow s) s (start_slideshow-IsSound s v) v

pub on_tick-IsSound : (s : Slider) → IsSound s → IsSound (on_tick s)
unfolding on_tick
on_tick-IsSound s v = rearm-IsSound (navigate next none s) (navigate-IsSound next none s tt v)

-- The end of a navigation, when its second timer or its listener has just been taken away.
pub on_end_navigate-IsSound :
    (m old : ℕ) (s : Slider)
    → s.slides_count ≡ length s.slides
    → ((s.current < s.slides_count) ⊎ ((s.current ≡ 0) × (s.slides_count ≡ 0)))
    → IsFresh s.timers
    → Handle s.slideshow s.timers
    → count is_slice2 s.timers.pending ≡ 0
    → IsSound (on_end_navigate m old s)
unfolding on_end_navigate
on_end_navigate-IsSound m old s z b f h e = record {
  size = z;
  below = b;
  fresh = f;
  handle = h;
  busy = rw e refl;
}

-- With a listener in place no second timer is pending.
pub listener-alone :
    (s : Slider) (l : Listener)
    → IsSound s
    → s.listener ≡ some l
    → count is_slice2 s.timers.pending ≡ 0
listener-alone s l v e = ground arith
