-- ===== src/RefineSlide/Rs/Lock.antt =====
-- The flag inProgress of assets/js/jquery.refineslide.js: what it keeps out, and how it is reset.
use twitter_client_server.Prelude.{
  ℕ, ◌≡◌, ◌≢◌, refl, Bool, true, false, inl, inr, Option, none, some, List, [], ◌∷◌, arith,
  Option-cases, if◌then◌else◌, All, ◌||◌, ◌∙◌, ap,
}
use twitter_client_server.Prelude.Int.{ℤ, pos}
use twitter_client_server.Browser.{find}
use twitter_client_server.RefineSlide.Transition.{Name, random, Plan}
use twitter_client_server.RefineSlide.Transition.Resolve.{is_plain, ShowsSome, plan-ShowsSome}
use twitter_client_server.RefineSlide.Rs.{
  Rs, Overrides, extend, css_end, js_end, cycle, execute, transition_with, transition, chosen_plan,
  heading, env_of, set_auto_play, clear_cycling, next, prev, next_place, prev_place,
}
use twitter_client_server.RefineSlide.Rs.Frame.{
  transition_refused, transition_accepted, after-Ended,
}
use twitter_client_server.RefineSlide.Rs.Events.{
  Browser, init, Event, arrow_next, arrow_prev, key, thumb, timer, ended, mouse_enter, mouse_leave,
  on_key, elapsed, on_timer, on_ended, step, run,
}
use twitter_client_server.RefineSlide.Rs.Kept.{run-Kept, init-Made}

or_true : (b c : Bool) → b ≡ true → (b || c) ≡ true
or_true b c h = ground arith

transition_locked :
    (p : Option Plan) (i : ℤ) (s : Rs) → s.in_progress ≡ true → transition_with p i s ≡ s
transition_locked p i s h = transition_refused p i s (or_true s.in_progress _ h)

next_locked : (pick : Name) (s : Rs) → s.in_progress ≡ true → next pick s ≡ s
unfolding next transition
next_locked pick s h = transition_locked _ (next_place s) s h

prev_locked : (pick : Name) (s : Rs) → s.in_progress ≡ true → prev pick s ≡ s
unfolding prev transition
prev_locked pick s h = transition_locked _ (prev_place s) s h

on_timer_locked :
    (pick : Name) (h : ℕ) (s : Rs)
    → s.in_progress ≡ true
    → (on_timer pick h s).current_place ≡ s.current_place
unfolding on_timer
on_timer_locked pick h s l = elim (Option-cases (find h s.timers.pending)) [
  | inl e ↦ rw (e, on_timer) refl
  | inr (cycle, e) ↦
      rw (e, on_timer) (ap (λ (t : Rs). t.current_place) (next_locked pick (elapsed h s) l))
  | inr (execute, e) ↦ rw (e, on_timer) refl
]

-- During a transition no event changes the place of the slider: arrows, keys, thumbnails and the
-- timer of the slideshow are refused.
pub step-current_place_locked :
    (s : Rs) (e : Event) → s.in_progress ≡ true → (step s e).current_place ≡ s.current_place
unfolding step on_key transition on_ended set_auto_play clear_cycling
step-current_place_locked s (arrow_next pick) h = ground (arith, next_locked pick s)
step-current_place_locked s (arrow_prev pick) h = ground (arith, prev_locked pick s)
step-current_place_locked s (key pick code) h =
    ground (arith, next_locked pick s, prev_locked pick s)
step-current_place_locked s (thumb pick i) h =
    ground (arith, transition_locked (chosen_plan pick (pos i) none s) (pos i) s)
step-current_place_locked s (timer pick k) h = on_timer_locked pick k s h
step-current_place_locked s ended h = ground (arith, after-Ended s)
step-current_place_locked s mouse_enter h = ground arith
step-current_place_locked s mouse_leave h = ground arith

-- The end that a running transition awaits is the one that its browser reports.
record Awaits (s : Rs) : Type 0 where
  plain : is_plain s.settings.fallback3d ≡ true
  ending : s.in_progress ≡ true → s.ending ≡ some (if s.css_transitions then css_end else js_end)

chosen_plan-ne_none :
    (pick : Name) (i : ℤ) (f : Option Bool) (s : Rs)
    → is_plain s.settings.fallback3d ≡ true
    → pick ≢ random
    → (p : Plan) × (chosen_plan pick i f s ≡ some p)
chosen_plan-ne_none pick i f s h r =
    by (chosen_plan pick i f s)
      (plan-ShowsSome 9997 (env_of s (heading f i s.current_place) pick) s.settings.transition h r)
  where
    by :
        (p : Option Plan)
        → ShowsSome (env_of s (heading f i s.current_place) pick) p
        → (q : Plan) × (p ≡ some q)
    by none v = absurd v
    by (some q) v = (q, refl)

transition-Awaits :
    (pick : Name) (i : ℤ) (f : Option Bool) (s : Rs)
    → pick ≢ random
    → Awaits s
    → Awaits (transition pick i f s)
unfolding transition
transition-Awaits pick i f s r v =
    let p = chosen_plan pick i f s in
    let (q, e) = chosen_plan-ne_none pick i f s v.plain r in
    ground (arith, e, transition_refused p i s, transition_accepted p i s)

on_timer-Awaits :
    (pick : Name) (h : ℕ) (s : Rs) → pick ≢ random → Awaits s → Awaits (on_timer pick h s)
unfolding on_timer next
on_timer-Awaits pick h s r v = elim (Option-cases (find h s.timers.pending)) [
  | inl e ↦ rw (e, on_timer) v
  | inr (cycle, e) ↦
      rw (e, on_timer)
        (transition-Awaits pick (next_place s) (some true) (elapsed h s) r (ground arith))
  | inr (execute, e) ↦ rw (e, on_timer) (ground arith)
]

-- A random transition draws from `anims`, where `random` itself is not.
abbrev pub IsDrawn : Event → Type 0
IsDrawn (arrow_next pick) = pick ≢ random
IsDrawn (arrow_prev pick) = pick ≢ random
IsDrawn (key pick code) = pick ≢ random
IsDrawn (thumb pick i) = pick ≢ random
IsDrawn (timer pick h) = pick ≢ random
IsDrawn _ = Unit

step-Awaits : (s : Rs) (e : Event) → IsDrawn e → Awaits s → Awaits (step s e)
unfolding step on_key next prev on_ended set_auto_play clear_cycling
step-Awaits s (arrow_next pick) r v =
    ground (arith, transition-Awaits pick (next_place s) (some true) s r v)
step-Awaits s (arrow_prev pick) r v =
    ground (arith, transition-Awaits pick (prev_place s) (some false) s r v)
step-Awaits s (key pick code) r v = ground (
  arith,
  transition-Awaits pick (next_place s) (some true) s r v,
  transition-Awaits pick (prev_place s) (some false) s r v,
)
step-Awaits s (thumb pick i) r v = ground (arith, transition-Awaits pick (pos i) none s r v)
step-Awaits s (timer pick h) r v = on_timer-Awaits pick h s r v
step-Awaits s ended r v = ground (arith, after-Ended s)
step-Awaits s mouse_enter r v = ground arith
step-Awaits s mouse_leave r v = ground arith

run-Awaits : (s : Rs) (es : List Event) → All IsDrawn es → Awaits s → Awaits (run s es)
unfolding run
run-Awaits s [] r v = v
run-Awaits s (e ∷ es) r v = run-Awaits (step s e) es r.1 (step-Awaits s e r.0 v)

init-Awaits :
    (b : Browser) (total : ℕ) (o : Overrides)
    → is_plain (extend o).fallback3d ≡ true
    → Awaits (init b total o)
init-Awaits b total o h =
    let m = init-Made b total o in
    record { plain = rw m.settings h; ending = λ e. cc (m.in_progress) }

-- With a fallback for the cubes that is neither a cube nor `random`, and where no random transition
-- draws `random` itself, a transition that is running, after whatever events, awaits the kind of end that its browser reports: that of a CSS transition
-- in a browser with CSS transitions, that of jQuery's animation in one without. When it is
-- reported the slider is free again, and shows the slide that came in.
pub run-in_progress_released :
    (b : Browser) (total : ℕ) (o : Overrides) (es : List Event)
    → is_plain (extend o).fallback3d ≡ true
    → All IsDrawn es
    → (run (init b total o) es).in_progress ≡ true
    → let s = run (init b total o) es in
      (s.ending ≡ some (if b.css_transitions then css_end else js_end))
      × ((step s ended).in_progress ≡ false)
      × ((step s ended).current_slide ≡ s.next_slide)
unfolding step on_ended
run-in_progress_released b total o es h r l =
    let s = run (init b total o) es in
    let k : s.css_transitions ≡ b.css_transitions =
      (run-Kept (init b total o) es).css_transitions ∙ (init-Made b total o).css_transitions in
    let e = (run-Awaits (init b total o) es r (init-Awaits b total o h)).ending l in
    (rw k at e, ground (arith, e, after-Ended s), ground (arith, e, after-Ended s))
