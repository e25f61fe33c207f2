-- ===== src/Cslider/Slideshow.antt =====
-- The slideshow of assets/js/jquery.cslider.js: its timer, and how a visitor's click ends it.
use twitter_client_server.Prelude.{
  ℕ, ◌<◌, ◌≡◌, Bool, true, false, Option, none, some, List, [], ◌∷◌, arith, Bool-cases, inl, inr,
  Option-cases, if◌then◌else◌, ap, ◌∙◌,
}
use twitter_client_server.Prelude.Int.{ℤ, pos}
use twitter_client_server.Browser.{Timers, find, remove}
use twitter_client_server.Cslider.{
  Overrides, Direction, next, Slider, navigate, start_slideshow, stop_slideshow, next_page, page,
  Callback, tick,
}
use twitter_client_server.Cslider.Frame.{refuses, navigate_refused, navigate_accepted}
use twitter_client_server.Cslider.Events.{
  Modernizr, init, click_next, click_prev, on_tick, on_timer, on_animated, on_animation_end,
  on_transition_end, Event, click_dot, call_page, click_arrow_next, click_arrow_prev, timer,
  animated, animation_ended, transition_ended, step, run,
}

-- With the slideshow on, the one pending timer is the one whose handle is kept; with it off there
-- is none.
abbrev pub Armed : Bool → Option ℕ → List (ℕ × Callback) → Type 0
Armed false h [] = Unit
Armed true (some h) ((i, tick) ∷ []) = i ≡ h
Armed _ _ _ = ⊥

abbrev pub IsArmed : Slider → Type 0
IsArmed s = Armed s.options.autoplay s.slideshow s.timers.pending

navigate-IsArmed :
    (i : ℤ) (d : Option Direction) (s : Slider) → IsArmed s → IsArmed (navigate i d s)
navigate-IsArmed i d s v = elim (Bool-cases (refuses i s)) [
  | inl e ↦ rw (navigate_refused i d s e) v
  | inr e ↦ let m = navigate_accepted i d s e in rw (m.options, m.slideshow, m.timers) v
]

-- A slideshow that is off, with no timer left.
pub record IsOff (s : Slider) : Type 0 where
  pub autoplay : s.options.autoplay ≡ false
  pub pending : s.timers.pending ≡ []

stop_slideshow-IsOff : (s : Slider) → IsArmed s → IsOff (stop_slideshow s)
unfolding stop_slideshow
stop_slideshow-IsOff s v = ground arith

IsOff-IsArmed : (s : Slider) → IsOff s → IsArmed s
IsOff-IsArmed s v = ground arith

navigate-IsOff : (i : ℤ) (d : Option Direction) (s : Slider) → IsOff s → IsOff (navigate i d s)
navigate-IsOff i d s v = elim (Bool-cases (refuses i s)) [
  | inl e ↦ rw (navigate_refused i d s e) v
  | inr e ↦
      let m = navigate_accepted i d s e in
      record { autoplay = rw m.options v.autoplay; pending = rw m.timers v.pending }
]

rearm-IsArmed :
    (s : Slider)
    → s.timers.pending ≡ []
    → IsArmed (if s.options.autoplay then start_slideshow s else s)
unfolding start_slideshow
rearm-IsArmed s e = ground arith

navigate-pending : (i : ℤ) (d : Option Direction) (s : Slider) → (navigate i d s).timers ≡ s.timers
navigate-pending i d s = ground (arith, navigate_refused i d s, navigate_accepted i d s)

on_tick-IsArmed : (s : Slider) → s.timers.pending ≡ [] → IsArmed (on_tick s)
unfolding on_tick
on_tick-IsArmed s e =
    rearm-IsArmed (navigate (next_page s) (some next) s)
      (ap (λ (t : Timers Callback). t.pending) (navigate-pending (next_page s) (some next) s) ∙ e)

-- The timer that runs out was the only one.
remove-Armed :
    (b : Bool) (h : Option ℕ) (k : ℕ) (l : List (ℕ × Callback))
    → Armed b h l
    → find k l ≡ some tick
    → remove k l ≡ []
unfolding find remove
remove-Armed false h k [] v f = cc
remove-Armed false h k (x ∷ l) v f = elim v [ ]
remove-Armed true none k l v f = elim v [ ]
remove-Armed true (some h) k [] v f = cc
remove-Armed true (some h) k ((i, tick) ∷ []) v f = ground arith
remove-Armed true (some h) k ((i, tick) ∷ x ∷ l) v f = elim v [ ]

on_timer-IsArmed : (k : ℕ) (s : Slider) → IsArmed s → IsArmed (on_timer k s)
unfolding on_timer
on_timer-IsArmed k s v = elim (Option-cases (find k s.timers.pending)) [
  | inl e ↦ rw (e, on_timer) v
  | inr (tick, e) ↦
      rw (e, on_timer)
        (on_tick-IsArmed _ (remove-Armed s.options.autoplay s.slideshow k s.timers.pending v e))
]

page-IsArmed : (i : ℤ) (s : Slider) → IsArmed s → IsArmed (page i s)
unfolding page
page-IsArmed i s v =
    ground (
      arith,
      navigate-IsArmed i none (stop_slideshow s) (IsOff-IsArmed _ (stop_slideshow-IsOff s v)),
    )

step-IsArmed : (s : Slider) (e : Event) → IsArmed s → IsArmed (step s e)
unfolding step click_next click_prev on_animated on_animation_end on_transition_end
step-IsArmed s (click_dot i) v = page-IsArmed i s v
step-IsArmed s (call_page i) v = page-IsArmed i s v
step-IsArmed s click_arrow_next v =
    navigate-IsArmed _ _ (stop_slideshow s) (IsOff-IsArmed _ (stop_slideshow-IsOff s v))
step-IsArmed s click_arrow_prev v =
    navigate-IsArmed _ _ (stop_slideshow s) (IsOff-IsArmed _ (stop_slideshow-IsOff s v))
step-IsArmed s (timer h) v = on_timer-IsArmed h s v
step-IsArmed s (animated k) v = ground arith
step-IsArmed s (animation_ended name) v = ground arith
step-IsArmed s (transition_ended own) v = ground arith

run-IsArmed : (s : Slider) (es : List Event) → IsArmed s → IsArmed (run s es)
unfolding run
run-IsArmed s [] v = v
run-IsArmed s (e ∷ es) v = run-IsArmed (step s e) es (step-IsArmed s e v)

init-IsArmed : (m : Modernizr) (count : ℕ) (o : Overrides) → IsArmed (init m count o)
unfolding init
init-IsArmed m count o = ground arith

-- However a slider was made, and whatever happened since, the slideshow has exactly one timer
-- pending, whose handle is the one that the slider keeps, while `autoplay` is set, and none when
-- it is not.
pub run-init-IsArmed :
    (m : Modernizr) (count : ℕ) (o : Overrides) (es : List Event)
    → IsArmed (run (init m count o) es)
run-init-IsArmed m count o es = run-IsArmed (init m count o) es (init-IsArmed m count o)

on_timer-IsOff : (k : ℕ) (s : Slider) → IsOff s → on_timer k s ≡ s
unfolding on_timer find
on_timer-IsOff k s v = ground arith

page-IsOff : (i : ℤ) (s : Slider) → IsOff s → IsOff (page i s)
unfolding page
page-IsOff i s v =
    ground
      (arith, navigate-IsOff i none (stop_slideshow s) (stop_slideshow-IsOff s (IsOff-IsArmed s v)))

step-IsOff : (s : Slider) (e : Event) → IsOff s → IsOff (step s e)
unfolding step click_next click_prev on_animated on_animation_end on_transition_end
step-IsOff s (click_dot i) v = page-IsOff i s v
step-IsOff s (call_page i) v = page-IsOff i s v
step-IsOff s click_arrow_next v =
    navigate-IsOff _ _ (stop_slideshow s) (stop_slideshow-IsOff s (IsOff-IsArmed s v))
step-IsOff s click_arrow_prev v =
    navigate-IsOff _ _ (stop_slideshow s) (stop_slideshow-IsOff s (IsOff-IsArmed s v))
step-IsOff s (timer h) v = rw (on_timer-IsOff h s v) v
step-IsOff s (animated k) v = ground arith
step-IsOff s (animation_ended name) v = ground arith
step-IsOff s (transition_ended own) v = ground arith

run-IsOff : (s : Slider) (es : List Event) → IsOff s → IsOff (run s es)
unfolding run
run-IsOff s [] v = v
run-IsOff s (e ∷ es) v = run-IsOff (step s e) es (step-IsOff s e v)

-- The events by which a visitor chooses a slide of a slider with `count` slides.
pub data Chooses (count : ℕ) : Event → Type 0 where
  by_next : Chooses count click_arrow_next
  by_prev : Chooses count click_arrow_prev
  by_dot : (i : ℕ) → i < count → Chooses count (click_dot (pos i))
  by_call : (i : ℕ) → i < count → Chooses count (call_page (pos i))

step_chosen-IsOff :
    (s : Slider) {e : Event} → IsArmed s → Chooses s.slides_count e → IsOff (step s e)
unfolding step click_next click_prev page
step_chosen-IsOff s v by_next = navigate-IsOff _ _ (stop_slideshow s) (stop_slideshow-IsOff s v)
step_chosen-IsOff s v by_prev = navigate-IsOff _ _ (stop_slideshow s) (stop_slideshow-IsOff s v)
step_chosen-IsOff s v (by_dot i h) =
    ground (arith, navigate-IsOff (pos i) none (stop_slideshow s) (stop_slideshow-IsOff s v))
step_chosen-IsOff s v (by_call i h) =
    ground (arith, navigate-IsOff (pos i) none (stop_slideshow s) (stop_slideshow-IsOff s v))

-- Once a visitor has chosen a slide, by an arrow, by a dot or by `page` with an index of a slide,
-- the slideshow is off for good: whatever happens afterwards, `autoplay` is not set and no timer
-- is pending. That holds in every state that a slider can reach.
pub run-chosen-IsOff :
    (m : Modernizr) (count : ℕ) (o : Overrides) (es : List Event) {e : Event} (later : List Event)
    → Chooses (run (init m count o) es).slides_count e
    → IsOff (run (step (run (init m count o) es) e) later)
run-chosen-IsOff m count o es later c =
    run-IsOff _ later (step_chosen-IsOff _ (run-init-IsArmed m count o es) c)
