-- ===== src/RefineSlide/Rs/Tracking.antt =====
-- The slides of assets/js/jquery.refineslide.js: their index, and which of them is shown.
use twitter_client_server.Prelude.{
  ℕ, ◌<◌, ◌≡◌, inl, inr, Option, none, List, [], ◌∷◌, arith, Bool-cases, Option-cases,
  if◌then◌else◌, All,
}
use twitter_client_server.Prelude.Int.{ℤ, pos, ◌+ℤ◌, ◌-ℤ◌, pos_part, neg_part}
use twitter_client_server.Browser.{find}
use twitter_client_server.RefineSlide.Transition.{Name, Plan}
use twitter_client_server.RefineSlide.Rs.{
  Rs, Overrides, extend, cycle, execute, transition_with, transition, chosen_plan, set_auto_play,
  clear_cycling, next, prev, next_place, prev_place,
}
use twitter_client_server.RefineSlide.Rs.Frame.{
  refuses, transition_refused, transition_accepted, after-Ended,
}
use twitter_client_server.RefineSlide.Rs.Kept.{step-Kept, init-Made}
use twitter_client_server.RefineSlide.Rs.Events.{
  Browser, init, Event, arrow_next, arrow_prev, key, thumb, timer, ended, mouse_enter, mouse_leave,
  on_key, elapsed, on_timer, on_ended, step, run,
}

-- The slider's fields fit together: the place is that of a slide; the slide at rest is the one at
-- the place, and the slide that is coming in during a transition is; no end is awaited at rest.
pub record IsSound (s : Rs) : Type 0 where
  pub nonneg : neg_part s.current_place ≡ 0
  pub below : pos_part s.current_place < s.total_slides
  pub shown : (if s.in_progress then s.next_slide else s.current_slide) ≡ s.current_place
  pub quiet : (if s.in_progress then none else s.ending) ≡ none

next_place-below :
    (s : Rs)
    → IsSound s
    → (neg_part (next_place s) ≡ 0) × (pos_part (next_place s) < s.total_slides)
unfolding ◌+ℤ◌
next_place-below s v = ground arith

prev_place-below :
    (s : Rs)
    → IsSound s
    → (neg_part (prev_place s) ≡ 0) × (pos_part (prev_place s) < s.total_slides)
unfolding ◌-ℤ◌
prev_place-below s v = ground arith

transition-IsSound :
    (p : Option Plan) (i : ℤ) (s : Rs)
    → IsSound s
    → (neg_part i ≡ 0) × (pos_part i < s.total_slides)
    → IsSound (transition_with p i s)
transition-IsSound p i s v w = elim (Bool-cases (refuses i s)) [
  | inl e ↦ rw (transition_refused p i s e) v
  | inr e ↦ ground (arith, transition_accepted p i s e)
]

next-IsSound : (pick : Name) (s : Rs) → IsSound s → IsSound (next pick s)
unfolding next transition
next-IsSound pick s v = transition-IsSound _ (next_place s) s v (next_place-below s v)

prev-IsSound : (pick : Name) (s : Rs) → IsSound s → IsSound (prev pick s)
unfolding prev transition
prev-IsSound pick s v = transition-IsSound _ (prev_place s) s v (prev_place-below s v)

on_timer-IsSound : (pick : Name) (h : ℕ) (s : Rs) → IsSound s → IsSound (on_timer pick h s)
unfolding on_timer
on_timer-IsSound pick h s v = elim (Option-cases (find h s.timers.pending)) [
  | inl e ↦ rw (e, on_timer) v
  | inr (cycle, e) ↦ rw (e, on_timer) (next-IsSound pick (elapsed h s) (ground arith))
  | inr (execute, e) ↦ rw (e, on_timer) (ground arith)
]

on_ended-IsSound : (s : Rs) → IsSound s → IsSound (on_ended s)
unfolding on_ended
on_ended-IsSound s v = ground (arith, after-Ended s)

-- A thumbnail is one of the slides.
abbrev pub IsPossible : ℕ → Event → Type 0
IsPossible total (thumb pick i) = i < total
IsPossible total _ = Unit

step-IsSound : (s : Rs) (e : Event) → IsPossible s.total_slides e → IsSound s → IsSound (step s e)
unfolding step on_key transition set_auto_play clear_cycling
step-IsSound s (arrow_next pick) q v = ground (arith, next-IsSound pick s v)
step-IsSound s (arrow_prev pick) q v = ground (arith, prev-IsSound pick s v)
step-IsSound s (key pick code) q v = ground (arith, next-IsSound pick s v, prev-IsSound pick s v)
step-IsSound s (thumb pick i) q v =
    ground (arith, transition-IsSound (chosen_plan pick (pos i) none s) (pos i) s v)
step-IsSound s (timer pick h) q v = on_timer-IsSound pick h s v
step-IsSound s ended q v = on_ended-IsSound s v
step-IsSound s mouse_enter q v = ground arith
step-IsSound s mouse_leave q v = ground arith

run-IsSound :
    (s : Rs) (es : List Event) → All (IsPossible s.total_slides) es → IsSound s → IsSound (run s es)
unfolding run
run-IsSound s [] q v = v
run-IsSound s (e ∷ es) q v =
    run-IsSound (step s e) es (rw (step-Kept s e).total_slides q.1) (step-IsSound s e q.0 v)

init-IsSound :
    (b : Browser) (total : ℕ) (o : Overrides)
    → (extend o).start_slide < total
    → IsSound (init b total o)
unfolding init
init-IsSound b total o h = ground arith

-- A slider that starts on one of its slides stays on its slides: after any events of which those on
-- thumbnails belong to a slide, the place is that of a slide, a slider at rest shows the slide at
-- its place and awaits no end, and a slider in a transition brings in the slide at its place.
pub run-init-IsSound :
    (b : Browser) (total : ℕ) (o : Overrides) (es : List Event)
    → (extend o).start_slide < total
    → All (IsPossible total) es
    → IsSound (run (init b total o) es)
run-init-IsSound b total o es h q =
    run-IsSound (init b total o) es (rw (init-Made b total o).total_slides q)
      (init-IsSound b total o h)
