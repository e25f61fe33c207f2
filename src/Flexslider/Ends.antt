-- ===== src/Flexslider/Ends.antt =====
-- The two ends of a slider of assets/js/jquery.flexslider.js that does not loop.
use twitter_client_server.Prelude.{
  ℕ, ◌≡◌, ◌≢◌, refl, Bool, true, false, ◌||◌, Option, List, ◌∷◌, if◌then◌else◌, ◌==◌, arith,
}
use twitter_client_server.Browser.{Timers}
use twitter_client_server.Flexslider.{
  update_arrows, Direction, next, prev, Options, Slider, Call, Callback, control_active,
  slide_active, headed, target, can_advance, play, place, slide_to, fade_to, prepared, advance,
  flex_animate, wrapup, Ending,
}
use twitter_client_server.Flexslider.Events.{created, set_up, init, Event, arrow, step, run}
use twitter_client_server.Flexslider.Prepared.{Prepared, prepared-Prepared}
use twitter_client_server.Flexslider.Steps.{play-Holds, run-Holds}

-- Without a loop: `atEnd` tells whether the slider moves to, or shows, the first or the last slide.
pub record IsMarked (s : Slider) : Type 0 where
  pub no_loop : s.options.animation_loop ≡ false
  pub mark : s.at_end ≡ ((s.animating_to == 0) || (s.animating_to == s.last))
  pub rest : (if s.animating then s.current_slide else s.animating_to) ≡ s.current_slide

slide_to-IsMarked : (t : ℕ) (s p : Slider) → IsMarked s → Prepared t s p → IsMarked (slide_to t p)
unfolding slide_to
slide_to-IsMarked t s p v q = record {
  no_loop = ground arith;
  mark = ground arith;
  rest = ground arith;
}

fade_to-IsMarked : (t : ℕ) (s p : Slider) → IsMarked s → Prepared t s p → IsMarked (fade_to t p)
unfolding fade_to
fade_to-IsMarked t s p v q = record {
  no_loop = ground arith;
  mark = ground arith;
  rest = ground arith;
}

if-IsMarked : (b : Bool) (s t : Slider) → IsMarked s → IsMarked t → IsMarked (if b then s else t)
if-IsMarked true s t v w = v
if-IsMarked false s t v w = w

advance-IsMarked :
    (t : ℕ) (paused : Bool) (s : Slider)
    → s.animating ≡ false
    → IsMarked s
    → IsMarked (advance t paused s)
unfolding advance
advance-IsMarked t paused s a v =
    let p = prepared t paused s in
    let q = prepared-Prepared t paused s in
    if-IsMarked s.options.fade (fade_to t p) (slide_to t p) (fade_to-IsMarked t s p v q)
      (slide_to-IsMarked t s p v q)

wrapup-IsMarked : (s : Slider) → IsMarked s → IsMarked (wrapup s)
unfolding wrapup
wrapup-IsMarked s v = ground arith

retimed-IsMarked :
    (s : Slider) (d : Option Direction) (b w : Bool) (h : Option ℕ) (t : Timers Callback)
    (e : Option Ending) (cs : List Call)
    → IsMarked s
    → IsMarked (record s {
      direction = d;
      playing = b;
      visible = w;
      animated_slides = h;
      intervals = t;
      ending = e;
      calls = cs;
    })
retimed-IsMarked s d b w h t e cs v = record { no_loop = v.no_loop; mark = v.mark; rest = v.rest }

set_up-IsMarked :
    (touch transitions : Bool) (last : ℕ) (o : Options)
    → o.animation_loop ≡ false
    → o.start_at ≢ last
    → IsMarked (set_up (created touch transitions last o))
set_up-IsMarked touch transitions last o f n =
    let c = created touch transitions last o in
    let m : c.at_end ≡ ((c.animating_to == 0) || (c.animating_to == c.last)) = ground arith in
    if-IsMarked o.fade c (record c { position = place c c.current_slide })
      (record { no_loop = f; mark = m; rest = refl })
      (record { no_loop = f; mark = m; rest = refl })

arrowed-IsMarked : (s : Slider) → IsMarked s → IsMarked (update_arrows s)
unfolding update_arrows
arrowed-IsMarked s v = record { no_loop = v.no_loop; mark = v.mark; rest = v.rest }

init-IsMarked :
    (touch transitions : Bool) (last : ℕ) (o : Options)
    → o.animation_loop ≡ false
    → o.start_at ≢ last
    → IsMarked (init touch transitions last o)
unfolding init update_arrows
init-IsMarked touch transitions last o f n =
    let s = update_arrows (set_up (created touch transitions last o)) in
    let t = record s {
      calls = control_active s.animating_to ∷ slide_active s.current_slide ∷ s.calls;
    } in
    let w : IsMarked t =
      retimed-IsMarked s s.direction s.playing s.visible s.animated_slides s.intervals s.ending
        t.calls (arrowed-IsMarked _ (set_up-IsMarked touch transitions last o f n)) in
    if-IsMarked o.slideshow (play t) t
      (play-Holds IsMarked retimed-IsMarked advance-IsMarked wrapup-IsMarked t w) w

refused :
    (t : ℕ) (paused : Bool) (s : Slider) → can_advance t s ≡ false → flex_animate t paused s ≡ s
unfolding flex_animate
refused t paused s e = ground arith

next_refused :
    (s : Slider)
    → IsMarked s
    → s.animating ≡ false
    → s.current_slide ≡ s.last
    → can_advance (target next (headed next s)) (headed next s) ≡ false
unfolding can_advance
next_refused s v a l = ground arith

prev_refused :
    (s : Slider)
    → IsMarked s
    → s.animating ≡ false
    → s.current_slide ≡ 0
    → can_advance (target prev (headed prev s)) (headed prev s) ≡ false
unfolding can_advance
prev_refused s v a l = ground arith

-- The last slide that an arrow leads to.
abbrev pub end_in : Direction → Slider → ℕ
end_in next s = s.last
end_in prev s = 0

arrow_refused :
    (d : Direction) (s : Slider)
    → IsMarked s
    → s.animating ≡ false
    → s.current_slide ≡ end_in d s
    → step s (arrow d) ≡ headed d s
unfolding step
arrow_refused next s v a l =
    refused _ s.options.pause_on_action (headed next s) (next_refused s v a l)
arrow_refused prev s v a l =
    refused _ s.options.pause_on_action (headed prev s) (prev_refused s v a l)

pub run-init-IsMarked :
    (touch transitions : Bool) (last : ℕ) (o : Options) (es : List Event)
    → o.animation_loop ≡ false
    → o.start_at ≢ last
    → IsMarked (run (init touch transitions last o) es)
run-init-IsMarked touch transitions last o es f n =
    run-Holds IsMarked retimed-IsMarked advance-IsMarked wrapup-IsMarked es
      (init touch transitions last o) (init-IsMarked touch transitions last o f n)

-- A slider that does not loop, and that does not start on its last slide, stops at both ends: at
-- rest on the last slide the next arrow, and at rest on the first one the previous arrow, do
-- nothing but keep the direction. That holds after any events.
pub run-arrow_at_end :
    (touch transitions : Bool) (last : ℕ) (o : Options) (es : List Event) (d : Direction)
    → o.animation_loop ≡ false
    → o.start_at ≢ last
    → (run (init touch transitions last o) es).animating ≡ false
    → (run (init touch transitions last o) es).current_slide
      ≡ end_in d (run (init touch transitions last o) es)
    → step (run (init touch transitions last o) es) (arrow d)
      ≡ headed d (run (init touch transitions last o) es)
run-arrow_at_end touch transitions last o es d f n a l =
    arrow_refused d (run (init touch transitions last o) es)
      (run-init-IsMarked touch transitions last o es f n) a l
