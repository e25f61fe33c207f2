-- ===== src/Flexslider/Controls/Tell.antt =====
-- What the arrows and the button of assets/js/jquery.flexslider.js tell.
use twitter_client_server.Prelude.{ℕ, ◌≡◌, refl, Bool, true, false}
use twitter_client_server.Flexslider.{
  Direction, Options, Slider, headed, target, can_advance, play, pause, arrows_for,
}
use twitter_client_server.Flexslider.Controls.{
  update_button, play_panel, pause_panel, click_button, init_panel,
}

abbrev pub leads : Direction → Slider → Bool
leads d s = can_advance (target d (headed d s)) (headed d s)

-- The arrows that are disabled are those for the slide that the slider moves to, or shows.
HasArrows : Slider → Type 0
HasArrows s = s.arrows ≡ arrows_for s.options.animation_loop s.animating_to s.last

-- Without a slideshow the button begins with pause, so that it takes two clicks to start one.
pub two_clicks_to_play :
    (touch transitions : Bool) (last : ℕ) (o : Options)
    → o.slideshow ≡ false
    → ((click_button (init_panel touch transitions last o)).slider.playing ≡ false)
      × ((click_button (click_button (init_panel touch transitions last o))).slider.playing ≡ true)
unfolding init_panel click_button play_panel pause_panel play pause update_button
two_clicks_to_play touch transitions last o off = rw off (refl, refl)
