-- ===== src/Cslider/Frame.antt =====
-- What one call of `_navigate` of assets/js/jquery.cslider.js changes, and what it leaves alone.
use twitter_client_server.Prelude.{◌≡◌, Bool, true, false, ◌||◌, Option, arith, if◌then◌else◌}
use twitter_client_server.Prelude.Int.{ℤ, eqb_ℤ}
use twitter_client_server.Cslider.{Direction, direction, Slider, turn, navigate}

abbrev pub refuses : ℤ → Slider → Bool
refuses page s = eqb_ℤ s.current page || s.is_animating

-- A slider that has moved to `page`.
pub record Moved (page : ℤ) (d : Direction) (s t : Slider) : Type 0 where
  pub options : t.options ≡ s.options
  pub slides_count : t.slides_count ≡ s.slides_count
  pub current : t.current ≡ page
  pub is_animating : t.is_animating ≡ true
  pub bgpositer : t.bgpositer ≡ (if s.css_animations then turn d s.bgpositer else s.bgpositer)
  pub css_animations : t.css_animations ≡ s.css_animations
  pub css_transitions : t.css_transitions ≡ s.css_transitions
  pub slideshow : t.slideshow ≡ s.slideshow
  pub end_listener : t.end_listener ≡ s.end_listener
  pub timers : t.timers ≡ s.timers

module _ (page : ℤ) (dir : Option Direction) (s : Slider) where
  pub navigate_refused : refuses page s ≡ true → navigate page dir s ≡ s
  unfolding navigate
  navigate_refused h = rw h

  pub navigate_accepted :
      refuses page s ≡ false → Moved page (direction dir page s.current) s (navigate page dir s)
  unfolding navigate
  navigate_accepted h = rw h (ground arith)
