-- ===== src/RefineSlide/Rs/Frame.antt =====
-- What one call of `transition` of assets/js/jquery.refineslide.js changes.
use twitter_client_server.Prelude.{
  ◌≡◌, Bool, true, false, ◌||◌, Option, none, some, arith, if◌then◌else◌,
}
use twitter_client_server.Prelude.Int.{ℤ, eqb_ℤ}
use twitter_client_server.RefineSlide.Transition.{Plan}
use twitter_client_server.RefineSlide.Rs.{Rs, Ending, css_end, js_end, transition_with, after}

abbrev pub refuses : ℤ → Rs → Bool
refuses i s = s.in_progress || eqb_ℤ i s.current_place

abbrev pub ending_after : Option Plan → Rs → Option Ending
ending_after none s = s.ending
ending_after (some p) s = some (if s.css_transitions then css_end else js_end)

-- A slider on its way to slide `i`.
pub record Began (p : Option Plan) (i : ℤ) (s t : Rs) : Type 0 where
  pub settings : t.settings ≡ s.settings
  pub total_slides : t.total_slides ≡ s.total_slides
  pub css_transitions : t.css_transitions ≡ s.css_transitions
  pub css_transforms3d : t.css_transforms3d ≡ s.css_transforms3d
  pub current_place : t.current_place ≡ i
  pub current_slide : t.current_slide ≡ s.current_slide
  pub next_slide : t.next_slide ≡ i
  pub in_progress : t.in_progress ≡ true
  pub ending : t.ending ≡ ending_after p s

module _ (p : Option Plan) (i : ℤ) (s : Rs) where
  pub transition_refused : refuses i s ≡ true → transition_with p i s ≡ s
  unfolding transition_with
  transition_refused h = ground arith

  pub transition_accepted : refuses i s ≡ false → Began p i s (transition_with p i s)
  unfolding transition_with
  transition_accepted h = ground arith

-- A slider whose transition has ended.
pub record Ended (s t : Rs) : Type 0 where
  pub settings : t.settings ≡ s.settings
  pub total_slides : t.total_slides ≡ s.total_slides
  pub css_transitions : t.css_transitions ≡ s.css_transitions
  pub css_transforms3d : t.css_transforms3d ≡ s.css_transforms3d
  pub current_place : t.current_place ≡ s.current_place
  pub current_slide : t.current_slide ≡ s.next_slide
  pub in_progress : t.in_progress ≡ false
  pub ending : t.ending ≡ none

pub after-Ended : (s : Rs) → Ended s (after s)
unfolding after
after-Ended s = ground arith
