-- ===== src/Slitslider/Slider/Sound/Steps.antt =====
-- Every event keeps what holds of the slider of assets/js/jquery.slitslider.js.
use twitter_client_server.Prelude.{
  ℕ, zero, suc, ◌<◌, ◌≡◌, refl, Bool, true, false, ◌||◌, ◌⊎◌, inl, inr, Option, none, some, List,
  [], ◌∷◌, arith, ◌==◌, leb, Bool-cases, Option-cases, length, length-append,
}
use twitter_client_server.Prelude.Int.{ℤ, pos, negsuc}
use twitter_client_server.Browser.{remove, find}
use twitter_client_server.Browser.Laws.{IsFresh, count, remove-IsFresh, count-remove}
use twitter_client_server.Slitslider.{Overrides, SlideData, Style, Options, extend}
use twitter_client_server.Slitslider.Slider.{
  Direction, next, prev, Call, slice1_css, trans_class, Callback, move_slice1, move_slice2, tick,
  Listener, Slider, navigate, on_end_navigate, on_move_slice2, stop_slideshow, go_next, previous,
  way_to, jump_to, jump, play, pause, add,
}
use twitter_client_server.Slitslider.Slider.Events.{
  created, init, on_key, on_resize, elapsed, run_callback, on_timer, on_transition_end, Event, key,
  resize, timer, transition_end, call_next, call_previous, call_play, call_pause, call_jump,
  call_add, step, run,
}
use twitter_client_server.Slitslider.Slider.Sound.{
  IsSound, is_slice2, Handle, remove-Handle, navigate-IsSound, retimed-IsSound, if-IsSound,
  start_slideshow-IsSound, stop_slideshow-IsSound, rearm-IsSound, on_tick-IsSound,
  on_end_navigate-IsSound, listener-alone,
}

taken-IsSound :
    (s : Slider) (o : Option Listener)
    → IsSound s
    → s.listener ≡ o
    → IsSound (elim o [ none ↦ s | some l ↦ on_end_navigate l.moving l.old s ])
taken-IsSound s none v e = v
taken-IsSound s (some l) v e =
    on_end_navigate-IsSound l.moving l.old s v.size v.below v.fresh v.handle
      (listener-alone s l v e)

on_transition_end-IsSound : (s : Slider) → IsSound s → IsSound (on_transition_end s)
unfolding on_transition_end
on_transition_end-IsSound s v = taken-IsSound s s.listener v refl

-- A timer that runs out, when it is not the second one of a navigation.
elapsed-IsSound :
    (c : Callback) (h : ℕ) (s : Slider)
    → IsSound s
    → find h s.timers.pending ≡ some c
    → is_slice2 c ≡ false
    → IsSound (elapsed h s)
elapsed-IsSound c h s v e n =
    retimed-IsSound s _ s.slideshow v (remove-IsFresh h s.timers v.fresh)
      (remove-Handle s.slideshow h s.timers v.handle)
      (ground (arith, count-remove is_slice2 h s.timers.pending c v.fresh.distinct e))

-- The second timer of a navigation is the only one of its kind, and its listener is not yet there.
slice2-alone :
    (c : Callback) (h : ℕ) (s : Slider)
    → IsSound s
    → find h s.timers.pending ≡ some c
    → is_slice2 c ≡ true
    → (count is_slice2 (remove h s.timers.pending) ≡ 0) × (s.is_animating ≡ true)
slice2-alone c h s v e n =
    ground (arith, count-remove is_slice2 h s.timers.pending c v.fresh.distinct e, v.busy)

-- A call of jQuery alone.
noted-IsSound : (s : Slider) (c : Call) → IsSound s → IsSound (record s { calls = c ∷ s.calls })
noted-IsSound s c v = record {
  size = v.size;
  below = v.below;
  fresh = v.fresh;
  handle = v.handle;
  busy = v.busy;
}

-- The end of the transition is awaited, or the navigation ends.
on_move_slice2-IsSound :
    (d : Direction) (old new m : ℕ) (st : Style) (s : Slider)
    → s.slides_count ≡ length s.slides
    → ((s.current < s.slides_count) ⊎ ((s.current ≡ 0) × (s.slides_count ≡ 0)))
    → IsFresh s.timers
    → Handle s.slideshow s.timers
    → count is_slice2 s.timers.pending ≡ 0
    → s.is_animating ≡ true
    → IsSound (on_move_slice2 d old new m st s)
unfolding on_move_slice2 on_end_navigate
on_move_slice2-IsSound d old new m st s z b f h e a =
    if-IsSound s.support _ _
      (record { size = z; below = b; fresh = f; handle = h; busy = ground arith })
      (on_end_navigate-IsSound m old (record s { calls = trans_class d old new ∷ s.calls }) z b f h
        e)

run_callback-IsSound :
    (c : Callback) (h : ℕ) (s : Slider)
    → IsSound s
    → find h s.timers.pending ≡ some c
    → IsSound (run_callback c (elapsed h s))
unfolding run_callback
run_callback-IsSound (move_slice1 d m st) h s v e =
    noted-IsSound (elapsed h s) (slice1_css m st)
      (elapsed-IsSound (move_slice1 d m st) h s v e refl)
run_callback-IsSound (move_slice2 d old new m st) h s v e =
    let w = slice2-alone (move_slice2 d old new m st) h s v e refl in
    on_move_slice2-IsSound d old new m st (elapsed h s) v.size v.below
      (remove-IsFresh h s.timers v.fresh) (remove-Handle s.slideshow h s.timers v.handle) w.0 w.1
run_callback-IsSound tick h s v e =
    on_tick-IsSound (elapsed h s) (elapsed-IsSound tick h s v e refl)

on_timer-IsSound : (h : ℕ) (s : Slider) → IsSound s → IsSound (on_timer h s)
unfolding on_timer
on_timer-IsSound h s v = elim (Option-cases (find h s.timers.pending)) [
  | inl e ↦ rw (e, on_timer) v
  | inr (c, e) ↦ rw (e, on_timer) (run_callback-IsSound c h s v e)
]

stop_slideshow-slides_count : (s : Slider) → (stop_slideshow s).slides_count ≡ s.slides_count
unfolding stop_slideshow
stop_slideshow-slides_count s = ground arith

go_next-IsSound : (s : Slider) → IsSound s → IsSound (go_next s)
unfolding go_next
go_next-IsSound s v = navigate-IsSound next none (stop_slideshow s) tt (stop_slideshow-IsSound s v)

previous-IsSound : (s : Slider) → IsSound s → IsSound (previous s)
unfolding previous
previous-IsSound s v = navigate-IsSound prev none (stop_slideshow s) tt (stop_slideshow-IsSound s v)

jump_to-IsSound : (i : ℕ) (s : Slider) → IsSound s → IsSound (jump_to i s)
unfolding jump_to
jump_to-IsSound i s v = elim (Bool-cases (i == s.current || leb s.slides_count i)) [
  | inl e ↦ rw e v
  | inr e ↦ rw e (
      navigate-IsSound (way_to i s) (some i) (stop_slideshow s)
        (ground (arith, stop_slideshow-slides_count s)) (stop_slideshow-IsSound s v))
]

jump-IsSound : (i : ℤ) (s : Slider) → IsSound s → IsSound (jump i s)
unfolding jump
jump-IsSound (negsuc n) s v = v
jump-IsSound (pos zero) s v = v
jump-IsSound (pos (suc i)) s v = jump_to-IsSound i s v

playing-IsSound : (s : Slider) (p : Bool) → IsSound s → IsSound (record s { is_playing = p })
playing-IsSound s p v = record {
  size = v.size;
  below = v.below;
  fresh = v.fresh;
  handle = v.handle;
  busy = v.busy;
}

autoplay-IsSound :
    (s : Slider) (p : Bool)
    → IsSound s
    → IsSound (record s { options = record (s.options) { autoplay = p } })
autoplay-IsSound s p v = record {
  size = v.size;
  below = v.below;
  fresh = v.fresh;
  handle = v.handle;
  busy = v.busy;
}

play-IsSound : (s : Slider) → IsSound s → IsSound (play s)
unfolding play
play-IsSound s v = if-IsSound s.is_playing s _ v (
    start_slideshow-IsSound _ (
      autoplay-IsSound (navigate next none (record s { is_playing = true })) true (
        navigate-IsSound next none (record s { is_playing = true }) tt (playing-IsSound s true v))))

pause-IsSound : (s : Slider) → IsSound s → IsSound (pause s)
unfolding pause
pause-IsSound s v = if-IsSound s.is_playing (stop_slideshow s) s (stop_slideshow-IsSound s v) v

add-IsSound : (l : List SlideData) (s : Slider) → IsSound s → IsSound (add l s)
unfolding add
add-IsSound l s v = record {
  size = refl;
  below = ground (arith, length-append s.slides l);
  fresh = v.fresh;
  handle = v.handle;
  busy = v.busy;
}

on_key-IsSound : (code : ℕ) (s : Slider) → IsSound s → IsSound (on_key code s)
unfolding on_key
on_key-IsSound code s v =
    if-IsSound s.options.keyboard _ s
      (if-IsSound (code == 37) (previous s) _ (previous-IsSound s v)
        (if-IsSound (code == 39) (go_next s) s (go_next-IsSound s v) v))
      v

on_resize-IsSound : (w h : ℕ) (s : Slider) → IsSound s → IsSound (on_resize w h s)
unfolding on_resize
on_resize-IsSound w h s v = record {
  size = v.size;
  below = v.below;
  fresh = v.fresh;
  handle = v.handle;
  busy = v.busy;
}

step-IsSound : (e : Event) (s : Slider) → IsSound s → IsSound (step s e)
unfolding step
step-IsSound (key code) s v = on_key-IsSound code s v
step-IsSound (resize w h) s v = on_resize-IsSound w h s v
step-IsSound (timer h) s v = on_timer-IsSound h s v
step-IsSound transition_end s v = on_transition_end-IsSound s v
step-IsSound call_next s v = go_next-IsSound s v
step-IsSound call_previous s v = previous-IsSound s v
step-IsSound call_play s v = play-IsSound s v
step-IsSound call_pause s v = pause-IsSound s v
step-IsSound (call_jump i) s v = jump-IsSound i s v
step-IsSound (call_add l) s v = add-IsSound l s v

run-IsSound : (es : List Event) (s : Slider) → IsSound s → IsSound (run s es)
unfolding run
run-IsSound [] s v = v
run-IsSound (e ∷ es) s v = run-IsSound es (step s e) (step-IsSound e s v)

first_of : (l : List SlideData) → let c : ℕ = 0 in (c < length l) ⊎ ((c ≡ 0) × (length l ≡ 0))
first_of [] = inr (refl, refl)
first_of (x ∷ l) = inl (omega arith)

created-IsSound :
    (b : Bool) (w h : ℕ) (l : List SlideData) (o : Options) → IsSound (created b w h l o)
unfolding count
created-IsSound b w h l o = record {
  size = refl;
  below = first_of l;
  fresh = record { below = tt; distinct = tt };
  handle = tt;
  busy = refl;
}

init-IsSound : (b : Bool) (w h : ℕ) (l : List SlideData) (o : Overrides) → IsSound (init b w h l o)
unfolding init
init-IsSound b w h l o = rearm-IsSound _ (created-IsSound b w h l (extend o))

-- However the slider is used, its current slide is one of its slides, or it has no slides and the
-- current one is 0; and it is animating exactly while one end of a navigation is still to come.
pub run-slider-IsSound :
    (b : Bool) (w h : ℕ) (l : List SlideData) (o : Overrides) (es : List Event)
    → IsSound (run (init b w h l o) es)
run-slider-IsSound b w h l o es = run-IsSound es (init b w h l o) (init-IsSound b w h l o)
