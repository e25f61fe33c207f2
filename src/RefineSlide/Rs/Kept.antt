-- ===== src/RefineSlide/Rs/Kept.antt =====
-- What no event changes in the slider of assets/js/jquery.refineslide.js.
use twitter_client_server.Prelude.{
  ℕ, ◌≡◌, false, inl, inr, Option, none, List, [], ◌∷◌, arith, Option-cases,
}
use twitter_client_server.Prelude.Int.{ℤ, pos}
use twitter_client_server.Browser.{find}
use twitter_client_server.RefineSlide.Transition.{Name, Plan}
use twitter_client_server.RefineSlide.Rs.{
  Rs, Overrides, extend, cycle, execute, transition_with, transition, chosen_plan, set_auto_play,
  clear_cycling, next, prev, next_place, prev_place,
}
use twitter_client_server.RefineSlide.Rs.Frame.{
  transition_refused, transition_accepted, after-Ended,
}
use twitter_client_server.RefineSlide.Rs.Events.{
  Browser, init, Event, arrow_next, arrow_prev, key, thumb, timer, ended, mouse_enter, mouse_leave,
  on_key, elapsed, on_timer, on_ended, step, run,
}

pub record Kept (s t : Rs) : Type 0 where
  pub settings : t.settings ≡ s.settings
  pub total_slides : t.total_slides ≡ s.total_slides
  pub css_transitions : t.css_transitions ≡ s.css_transitions
  pub css_transforms3d : t.css_transforms3d ≡ s.css_transforms3d

pub Kept-trans : {s t u : Rs} → Kept s t → Kept t u → Kept s u
Kept-trans a b = ground arith

transition-Kept : (p : Option Plan) (i : ℤ) (s : Rs) → Kept s (transition_with p i s)
transition-Kept p i s = ground (arith, transition_refused p i s, transition_accepted p i s)

next-Kept : (pick : Name) (s : Rs) → Kept s (next pick s)
unfolding next transition
next-Kept pick s = transition-Kept _ (next_place s) s

prev-Kept : (pick : Name) (s : Rs) → Kept s (prev pick s)
unfolding prev transition
prev-Kept pick s = transition-Kept _ (prev_place s) s

on_timer-Kept : (pick : Name) (h : ℕ) (s : Rs) → Kept s (on_timer pick h s)
unfolding on_timer
on_timer-Kept pick h s = elim (Option-cases (find h s.timers.pending)) [
  | inl e ↦ rw (e, on_timer) (ground arith)
  | inr (cycle, e) ↦ rw (e, on_timer) (ground (arith, next-Kept pick (elapsed h s)))
  | inr (execute, e) ↦ rw (e, on_timer) (ground arith)
]

pub step-Kept : (s : Rs) (e : Event) → Kept s (step s e)
unfolding step on_key transition on_ended set_auto_play clear_cycling
step-Kept s (arrow_next pick) = ground (arith, next-Kept pick s)
step-Kept s (arrow_prev pick) = ground (arith, prev-Kept pick s)
step-Kept s (key pick code) = ground (arith, next-Kept pick s, prev-Kept pick s)
step-Kept s (thumb pick i) =
    ground (arith, transition-Kept (chosen_plan pick (pos i) none s) (pos i) s)
step-Kept s (timer pick h) = on_timer-Kept pick h s
step-Kept s ended = ground (arith, after-Ended s)
step-Kept s mouse_enter = ground arith
step-Kept s mouse_leave = ground arith

pub run-Kept : (s : Rs) (es : List Event) → Kept s (run s es)
unfolding run
run-Kept s [] = ground arith
run-Kept s (e ∷ es) = Kept-trans (step-Kept s e) (run-Kept (step s e) es)

pub record Made (b : Browser) (total : ℕ) (o : Overrides) (s : Rs) : Type 0 where
  pub settings : s.settings ≡ extend o
  pub total_slides : s.total_slides ≡ total
  pub css_transitions : s.css_transitions ≡ b.css_transitions
  pub in_progress : s.in_progress ≡ false

pub init-Made : (b : Browser) (total : ℕ) (o : Overrides) → Made b total o (init b total o)
unfolding init
init-Made b total o = ground arith
