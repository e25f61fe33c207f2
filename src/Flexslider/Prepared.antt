-- ===== src/Flexslider/Prepared.antt =====
-- What `flexAnimate` of assets/js/jquery.flexslider.js prepares before it moves the slides.
use twitter_client_server.Prelude.{
  ℕ, ◌≡◌, refl, Bool, true, false, not, ◌||◌, List, ◌∷◌, if◌then◌else◌, ◌==◌, ◌∙◌,
}
use twitter_client_server.Browser.{Timers, clear_timeout}
use twitter_client_server.Flexslider.{
  Slider, Call, Callback, end_of_cycle, pause, begun, marked, cycled, prepared, arrows_for,
  update_arrows,
}

-- What the preparations leave as it was, and what they set.
pub record Prepared (t : ℕ) (s p : Slider) : Type 0 where
  pub options : p.options ≡ s.options
  pub last : p.last ≡ s.last
  pub clone_offset : p.clone_offset ≡ s.clone_offset
  pub current_slide : p.current_slide ≡ s.current_slide
  pub direction : p.direction ≡ s.direction
  pub animating : p.animating ≡ true
  pub animating_to : p.animating_to ≡ t
  pub at_end : p.at_end ≡ ((t == 0) || (t == s.last))
  pub arrows : p.arrows ≡ arrows_for s.options.animation_loop t s.last

-- The end of a cycle changes the slideshow alone.
record Kept (s t : Slider) : Type 0 where
  options : t.options ≡ s.options
  last : t.last ≡ s.last
  clone_offset : t.clone_offset ≡ s.clone_offset
  current_slide : t.current_slide ≡ s.current_slide
  direction : t.direction ≡ s.direction
  animating : t.animating ≡ s.animating
  animating_to : t.animating_to ≡ s.animating_to
  at_end : t.at_end ≡ s.at_end
  arrows : t.arrows ≡ s.arrows

if-Kept : (b : Bool) (s t u : Slider) → Kept s t → Kept s u → Kept s (if b then t else u)
if-Kept true s t u v w = v
if-Kept false s t u v w = w

retimed-Kept :
    (s : Slider) (t : Timers Callback) (b : Bool) (cs : List Call)
    → Kept s (record s { intervals = t; playing = b; calls = cs })
retimed-Kept s t b cs = record {
  options = refl;
  last = refl;
  clone_offset = refl;
  current_slide = refl;
  direction = refl;
  animating = refl;
  animating_to = refl;
  at_end = refl;
  arrows = refl;
}

cycled-Kept : (t : ℕ) (s : Slider) → Kept s (cycled t s)
unfolding cycled pause
cycled-Kept t s =
    let f = record s { calls = end_of_cycle ∷ s.calls } in
    if-Kept (t == s.last) s _ s
      (if-Kept (not s.options.animation_loop) s (pause f) f
        (retimed-Kept s (clear_timeout s.animated_slides s.intervals) false f.calls)
        (retimed-Kept s s.intervals s.playing f.calls))
      (retimed-Kept s s.intervals s.playing s.calls)

marked-Prepared : (t : ℕ) (paused : Bool) (s : Slider) → Prepared t s (marked t (begun t paused s))
unfolding begun marked pause update_arrows
marked-Prepared t true s = record {
  options = refl;
  last = refl;
  clone_offset = refl;
  current_slide = refl;
  direction = refl;
  animating = refl;
  animating_to = refl;
  at_end = refl;
  arrows = refl;
}
marked-Prepared t false s = record {
  options = refl;
  last = refl;
  clone_offset = refl;
  current_slide = refl;
  direction = refl;
  animating = refl;
  animating_to = refl;
  at_end = refl;
  arrows = refl;
}

pub prepared-Prepared : (t : ℕ) (paused : Bool) (s : Slider) → Prepared t s (prepared t paused s)
prepared-Prepared t paused s =
    let m = marked t (begun t paused s) in
    let v = marked-Prepared t paused s in
    let k = cycled-Kept t m in
    record {
      options = k.options ∙ v.options;
      last = k.last ∙ v.last;
      clone_offset = k.clone_offset ∙ v.clone_offset;
      current_slide = k.current_slide ∙ v.current_slide;
      direction = k.direction ∙ v.direction;
      animating = k.animating ∙ v.animating;
      animating_to = k.animating_to ∙ v.animating_to;
      at_end = k.at_end ∙ v.at_end;
      arrows = k.arrows ∙ v.arrows;
    }
