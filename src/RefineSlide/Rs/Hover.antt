-- ===== src/RefineSlide/Rs/Hover.antt =====
-- The slideshow of assets/js/jquery.refineslide.js under the mouse.
use twitter_client_server.Prelude.{ℕ, ◌+◌, ◌≡◌, true, some, List, [], ◌∷◌, arith}
use twitter_client_server.Browser.{find, clear_timeout}
use twitter_client_server.RefineSlide.Transition.{Name}
use twitter_client_server.RefineSlide.Rs.{
  Rs, Ending, Callback, cycle, after, set_auto_play, clear_cycling, next, next_place, transition,
}
use twitter_client_server.RefineSlide.Rs.Frame.{transition_refused}
use twitter_client_server.RefineSlide.Rs.Events.{
  ended, mouse_enter, mouse_leave, timer, on_timer, elapsed, on_ended, step, run,
}

-- The timers that are left of `s` when the one of its slideshow is cleared twice.
abbrev pub others : Rs → List (ℕ × Callback)
others s = (clear_timeout s.cycling (clear_timeout s.cycling s.timers)).pending

-- A visitor who moves the mouse over a slider with a slideshow while the end of a transition is
-- awaited, and away after it has ended, leaves it with two new timers of the slideshow, and only the
-- newer handle is kept.
pub hover_in_transition :
    (s : Rs) (e : Ending)
    → s.settings.auto_play ≡ true
    → s.ending ≡ some e
    → let t = run s (mouse_enter ∷ ended ∷ mouse_leave ∷ []) in
      (t.timers.pending ≡ (s.timers.next_id + 1, cycle) ∷ (s.timers.next_id, cycle) ∷ others s)
      × (t.cycling ≡ some (s.timers.next_id + 1))
unfolding run step on_ended after set_auto_play clear_cycling
hover_in_transition s e a w = ground arith

-- The slideshow's timer is not set again when `next` is refused: a timer that runs out during a
-- transition leaves no new one.
pub timer_in_transition :
    (s : Rs) (pick : Name) (h : ℕ)
    → s.in_progress ≡ true
    → find h s.timers.pending ≡ some cycle
    → step s (timer pick h) ≡ elapsed h s
unfolding step on_timer next transition
timer_in_transition s pick h l f =
    rw (f, on_timer) (transition_refused _ (next_place s) (elapsed h s) (ground arith))
