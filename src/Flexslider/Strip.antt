-- ===== src/Flexslider/Strip.antt =====
-- Where the strip of slides of assets/js/jquery.flexslider.js stands.
use twitter_client_server.Prelude.{
  ℕ, ◌<◌, ◌≡◌, refl, Bool, true, false, Option, List, ◌∷◌, if◌then◌else◌, arith,
}
use twitter_client_server.Browser.{Timers}
use twitter_client_server.Flexslider.{
  update_arrows, Direction, Options, Slider, Call, Callback, control_active, slide_active, play,
  place, slide_to, prepared, advance, jumped, wrapup, Ending,
}
use twitter_client_server.Flexslider.Events.{created, set_up, init, Event, run}
use twitter_client_server.Flexslider.Prepared.{Prepared, prepared-Prepared}
use twitter_client_server.Flexslider.Steps.{if-Holds, play-Holds, run-Holds}

-- Of a slider with more than one slide that slides: once the running animation has ended, the strip
-- stands where it shows the slide that the slider moves to, which at rest is the current one.
pub record IsPlaced (s : Slider) : Type 0 where
  pub mode : s.options.fade ≡ false
  pub many : 0 < s.last
  pub offset : s.clone_offset ≡ (if s.options.animation_loop then 1 else 0)
  pub strip : (jumped s).position ≡ place s s.animating_to
  pub rest : (if s.animating then s.current_slide else s.animating_to) ≡ s.current_slide

slide_to-IsPlaced :
    (t : ℕ) (s p : Slider)
    → s.animating ≡ false
    → IsPlaced s
    → Prepared t s p
    → IsPlaced (slide_to t p)
unfolding slide_to
slide_to-IsPlaced t s p a v q = record {
  mode = ground arith;
  many = ground arith;
  offset = ground arith;
  strip = ground arith;
  rest = ground arith;
}

else-IsPlaced : (b : Bool) (s t : Slider) → b ≡ false → IsPlaced t → IsPlaced (if b then s else t)
else-IsPlaced true s t e w = absurd (ground arith)
else-IsPlaced false s t e w = w

advance-IsPlaced :
    (t : ℕ) (paused : Bool) (s : Slider)
    → s.animating ≡ false
    → IsPlaced s
    → IsPlaced (advance t paused s)
unfolding advance
advance-IsPlaced t paused s a v =
    else-IsPlaced s.options.fade _ (slide_to t (prepared t paused s)) v.mode
      (slide_to-IsPlaced t s (prepared t paused s) a v (prepared-Prepared t paused s))

wrapup-IsPlaced : (s : Slider) → IsPlaced s → IsPlaced (wrapup s)
unfolding wrapup
wrapup-IsPlaced s v = ground arith

-- What has nothing to do with the strip.
retimed-IsPlaced :
    (s : Slider) (d : Option Direction) (b w : Bool) (h : Option ℕ) (t : Timers Callback)
    (e : Option Ending) (cs : List Call)
    → IsPlaced s
    → IsPlaced (record s {
      direction = d;
      playing = b;
      visible = w;
      animated_slides = h;
      intervals = t;
      ending = e;
      calls = cs;
    })
retimed-IsPlaced s d b w h t e cs v = record {
  mode = v.mode;
  many = v.many;
  offset = v.offset;
  strip = ground arith;
  rest = v.rest;
}

shown-IsPlaced :
    (touch transitions : Bool) (last : ℕ) (o : Options)
    → o.fade ≡ false
    → 0 < last
    → let c = created touch transitions last o in
      IsPlaced (record c { position = place c c.current_slide })
shown-IsPlaced touch transitions last o f n = record {
  mode = f;
  many = n;
  offset = ground arith;
  strip = ground arith;
  rest = refl;
}

arrowed-IsPlaced : (s : Slider) → IsPlaced s → IsPlaced (update_arrows s)
unfolding update_arrows
arrowed-IsPlaced s v = record {
  mode = v.mode;
  many = v.many;
  offset = v.offset;
  strip = ground (arith, v.strip);
  rest = v.rest;
}

init-IsPlaced :
    (touch transitions : Bool) (last : ℕ) (o : Options)
    → o.fade ≡ false
    → 0 < last
    → IsPlaced (init touch transitions last o)
unfolding init update_arrows
init-IsPlaced touch transitions last o f n =
    let s = update_arrows (set_up (created touch transitions last o)) in
    let v : IsPlaced s = arrowed-IsPlaced (set_up (created touch transitions last o)) (
      else-IsPlaced o.fade (created touch transitions last o) _ f
        (shown-IsPlaced touch transitions last o f n)) in
    let t = record s {
      calls = control_active s.animating_to ∷ slide_active s.current_slide ∷ s.calls;
    } in
    let w : IsPlaced t =
      retimed-IsPlaced s s.direction s.playing s.visible s.animated_slides s.intervals s.ending
        t.calls v in
    if-Holds IsPlaced retimed-IsPlaced advance-IsPlaced wrapup-IsPlaced o.slideshow (play t) t
      (play-Holds IsPlaced retimed-IsPlaced advance-IsPlaced wrapup-IsPlaced t w) w

position_at_rest :
    (s : Slider) → IsPlaced s → s.animating ≡ false → s.position ≡ place s s.current_slide
position_at_rest s v a = ground arith

-- A slider with more than one slide that slides, in a loop or not, forwards or in reverse, shows the
-- current slide whenever no animation is running: after any events the strip stands at the place that
-- belongs to the number of the current slide.
pub run-position :
    (touch transitions : Bool) (last : ℕ) (o : Options) (es : List Event)
    → o.fade ≡ false
    → 0 < last
    → (run (init touch transitions last o) es).animating ≡ false
    → (run (init touch transitions last o) es).position
      ≡ place
          (run (init touch transitions last o) es)
          (run (init touch transitions last o) es).current_slide
run-position touch transitions last o es f n a =
    position_at_rest (run (init touch transitions last o) es)
      (run-Holds IsPlaced retimed-IsPlaced advance-IsPlaced wrapup-IsPlaced es
        (init touch transitions last o) (init-IsPlaced touch transitions last o f n))
      a
