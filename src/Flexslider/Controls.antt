-- ===== src/Flexslider/Controls.antt =====
-- The arrows and the button of assets/js/jquery.flexslider.js: `directionNav.update` and `pausePlay`.
pub mod Tell
use twitter_client_server.Prelude.{
  ℕ, ◌+◌, Bool, true, false, not, List, [], ◌∷◌, if◌then◌else◌, ◌==◌,
}
use twitter_client_server.Flexslider.{Direction, next, prev, Options, Arrows, Slider, play, pause}
use twitter_client_server.Flexslider.Events.{created, set_up, init}

abbrev pub is_disabled : Direction → Arrows → Bool
is_disabled next a = a.next_disabled
is_disabled prev a = a.prev_disabled

-- What `pausePlay.update` is given: at the set-up a name with the prefix of the slider's classes.
pub data State : Type 0 where
  play_state pause_state prefixed_play prefixed_pause : State

-- The class of the button, which says what a click does.
pub data Button : Type 0 where
  play_button pause_button : Button

-- `pausePlay.update`
unfoldable pub update_button : State → Button
update_button play_state = play_button
update_button pause_state = pause_button
update_button prefixed_play = pause_button
update_button prefixed_pause = pause_button

-- The slider with its button, which `play` and `pause` update.
pub record Panel : Type 0 where
  pub slider : Slider
  pub button : Button

unfoldable pub play_panel : Panel → Panel
unfolding update_button play
play_panel p = record { slider = play p.slider; button = update_button pause_state }

unfoldable pub pause_panel : Panel → Panel
unfolding update_button pause
pause_panel p = record { slider = pause p.slider; button = update_button play_state }

-- The click on the button.
unfoldable pub click_button : Panel → Panel
unfolding play_panel pause_panel
click_button p = elim p.button [
  | pause_button ↦
      pause_panel
        (record p { slider = record (p.slider) { manual_pause = true; manual_play = false } })
  | play_button ↦
      play_panel
        (record p { slider = record (p.slider) { manual_pause = false; manual_play = true } })
]

-- `pausePlay.setup`, and the start of the slideshow behind it.
unfoldable pub init_panel : Bool → Bool → ℕ → Options → Panel
unfolding update_button play_panel
init_panel touch transitions last o =
    let s = set_up (created touch transitions last o) in
    let p : Panel = record {
      slider = s;
      button = update_button (if o.slideshow then prefixed_pause else prefixed_play);
    } in
    if o.slideshow then play_panel p else p

pub data PanelEvent : Type 0 where
  click panel_play panel_pause : PanelEvent

unfoldable pub step_panel : PanelEvent → Panel → Panel
unfolding click_button
step_panel click p = click_button p
step_panel panel_play p = play_panel p
step_panel panel_pause p = pause_panel p

unfoldable pub run_panel : List PanelEvent → Panel → Panel
unfolding step_panel
run_panel [] p = p
run_panel (e ∷ es) p = run_panel es (step_panel e p)
