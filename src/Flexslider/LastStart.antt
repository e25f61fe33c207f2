-- ===== src/Flexslider/LastStart.antt =====
-- A slider of assets/js/jquery.flexslider.js that starts on its last slide.
use twitter_client_server.Prelude.{
  ℕ, ◌<◌, ◌≡◌, refl, Bool, true, false, not, ◌&&◌, Option, some, List, ◌∷◌, if◌then◌else◌, ◌==◌,
  arith,
}
use twitter_client_server.Prelude.Int.{ℤ}
use twitter_client_server.Browser.{Timers, set_timeout}
use twitter_client_server.Flexslider.{
  Arrows, update_arrows, next, Options, Slider, Call, Callback, animate_slides, control_active,
  slide_active, headed, target, can_advance, play, place, slide_to, fade_to, prepared, advance,
  flex_animate,
}
use twitter_client_server.Flexslider.Events.{created, set_up, init, arrow, step}
use twitter_client_server.Flexslider.Prepared.{prepared-Prepared}

-- What a slider is like when it has just started.
record IsStarted (n : ℕ) (o : Options) (s : Slider) : Type 0 where
  options : s.options ≡ o
  last : s.last ≡ n
  animating : s.animating ≡ false
  visible : s.visible ≡ true
  current_slide : s.current_slide ≡ o.start_at
  at_end : s.at_end ≡ (o.start_at == 0)

if-IsStarted :
    {last : ℕ} {o : Options} (b : Bool) (s t : Slider)
    → IsStarted last o s
    → IsStarted last o t
    → IsStarted last o (if b then s else t)
if-IsStarted true s t v w = v
if-IsStarted false s t v w = w

replayed-IsStarted :
    {last : ℕ} {o : Options} (s : Slider) (x : ℤ) (b : Bool) (h : Option ℕ) (t : Timers Callback)
    (a : Arrows) (cs : List Call)
    → IsStarted last o s
    → IsStarted last o (record s {
      position = x;
      playing = b;
      animated_slides = h;
      intervals = t;
      arrows = a;
      calls = cs;
    })
replayed-IsStarted s x b h t a cs v = record {
  options = v.options;
  last = v.last;
  animating = v.animating;
  visible = v.visible;
  current_slide = v.current_slide;
  at_end = v.at_end;
}

init-IsStarted :
    (touch transitions : Bool) (last : ℕ) (o : Options)
    → IsStarted last o (init touch transitions last o)
unfolding init play update_arrows
init-IsStarted touch transitions last o =
    let c = created touch transitions last o in
    let v : IsStarted last o c = record {
      options = refl;
      last = refl;
      animating = refl;
      visible = refl;
      current_slide = refl;
      at_end = refl;
    } in
    let s = set_up c in
    let w : IsStarted last o s = if-IsStarted o.fade c _ v (
      replayed-IsStarted c (place c c.current_slide) c.playing c.animated_slides c.intervals
        c.arrows c.calls v) in
    let cs = control_active s.animating_to ∷ slide_active s.current_slide ∷ s.calls in
    if-IsStarted o.slideshow _ _
      (replayed-IsStarted s s.position true (some s.intervals.next_id)
        (set_timeout animate_slides s.intervals) (update_arrows s).arrows cs w)
      (replayed-IsStarted s s.position s.playing s.animated_slides s.intervals
        (update_arrows s).arrows cs w)

slide_to-animating_to : (t : ℕ) (p : Slider) → (slide_to t p).animating_to ≡ p.animating_to
unfolding slide_to
slide_to-animating_to t p = ground arith

fade_to-animating_to : (t : ℕ) (p : Slider) → (fade_to t p).animating_to ≡ p.animating_to
unfolding fade_to
fade_to-animating_to t p = ground arith

advance-animating_to : (t : ℕ) (paused : Bool) (s : Slider) → (advance t paused s).animating_to ≡ t
unfolding advance
advance-animating_to t paused s =
    let p = prepared t paused s in
    let q = prepared-Prepared t paused s in
    ground (arith, slide_to-animating_to t p, fade_to-animating_to t p, q.animating_to)

advances :
    (last : ℕ) (o : Options) (s : Slider)
    → IsStarted last o s
    → o.animation_loop ≡ false
    → 0 < last
    → o.start_at ≡ last
    → (not s.animating && (can_advance 0 (headed next s) && s.visible)) ≡ true
unfolding can_advance
advances last o s v f n l = ground arith

from_last :
    (last : ℕ) (o : Options) (s : Slider)
    → IsStarted last o s
    → o.animation_loop ≡ false
    → 0 < last
    → o.start_at ≡ last
    → (step s (arrow next)).animating_to ≡ 0
unfolding step flex_animate
from_last last o s v f n l =
    let t = headed next s in
    let e : target next t ≡ 0 = ground (arith, v.current_slide, v.last) in
    rw e (taken (advances last o s v f n l))
  where
    taken :
        (not s.animating && (can_advance 0 (headed next s) && s.visible)) ≡ true
        → (if not s.animating && (can_advance 0 (headed next s) && s.visible)
            then advance 0 s.options.pause_on_action (headed next s)
            else headed next s).animating_to
          ≡ 0
    taken h = rw h (advance-animating_to 0 s.options.pause_on_action (headed next s))

-- A slider that starts on its last slide, one of several, does go on to the first with the next
-- arrow, though it does not loop: `atEnd` is set before `last` is known.
pub arrow_from_last_start :
    (touch transitions : Bool) (last : ℕ) (o : Options)
    → o.animation_loop ≡ false
    → 0 < last
    → o.start_at ≡ last
    → (step (init touch transitions last o) (arrow next)).animating_to ≡ 0
arrow_from_last_start touch transitions last o f n l =
    from_last last o (init touch transitions last o) (init-IsStarted touch transitions last o) f n l
