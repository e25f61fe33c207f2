-- ===== src/RefineSlide/Rs/Events.antt =====
-- The events that the slider of assets/js/jquery.refineslide.js listens to, and its start.
use twitter_client_server.Prelude.{ℕ, Bool, false, none, some, List, [], ◌∷◌, if◌then◌else◌, ◌==◌}
use twitter_client_server.Prelude.Int.{pos}
use twitter_client_server.Browser.{no_timers, find, remove}
use twitter_client_server.RefineSlide.Transition.{Name}
use twitter_client_server.RefineSlide.Rs.{
  Settings, Overrides, extend, thumbs, arrows, on_init, opacity, z_index, execute_plan,
  append_arrows, set_captions, caption_opacity, thumb_active, cycle, execute, Rs, transition,
  set_auto_play, clear_cycling, after, next, prev,
}

pub record Browser : Type 0 where
  pub css_transitions : Bool
  pub css_transforms3d : Bool
  pub slide_width : ℕ
  pub slide_height : ℕ

abbrev created : Browser → ℕ → Settings → Rs
created b total st = record {
  settings = st;
  total_slides = total;
  css_transitions = b.css_transitions;
  css_transforms3d = b.css_transforms3d;
  slide_width = b.slide_width;
  slide_height = b.slide_height;
  current_place = pos st.start_slide;
  current_slide = pos st.start_slide;
  next_slide = pos st.start_slide;
  in_progress = false;
  ending = none;
  cycling = none;
  timers = no_timers;
  calls = caption_opacity (pos st.start_slide) 1 ∷ set_captions ∷ on_init ∷ [];
}

abbrev set_arrows : Rs → Rs
set_arrows s = elim s.settings.controls [
  | arrows ↦ record s { calls = append_arrows ∷ s.calls }
  | _ ↦ s
]

abbrev set_thumbs : Rs → Rs
set_thumbs s = elim s.settings.controls [
  | thumbs ↦ record s { calls = thumb_active (pos s.settings.start_slide) ∷ s.calls }
  | _ ↦ s
]

-- `setup`, once the images are loaded: the first slide is shown.
abbrev setup : Rs → Rs
setup s =
    let t = set_thumbs s in
    record t { calls = z_index t.current_slide 2 ∷ opacity t.current_slide 1 ∷ t.calls }

unfoldable pub init : Browser → ℕ → Overrides → Rs
unfolding set_auto_play
init b total o =
    let s = set_arrows (created b total (extend o)) in
    setup (if s.settings.auto_play then set_auto_play s else s)

-- `pick` is what a random transition would draw.
pub data Event : Type 0 where
  arrow_next arrow_prev : Name → Event
  key : Name → ℕ → Event
  thumb : Name → ℕ → Event
  timer : Name → ℕ → Event
  ended mouse_enter mouse_leave : Event

unfoldable pub on_key : Name → ℕ → Rs → Rs
on_key pick code s =
    if s.settings.key_nav
    then (if code == 39 then next pick s else if code == 37 then prev pick s else s)
    else s

abbrev pub elapsed : ℕ → Rs → Rs
elapsed h s = record s { timers = record (s.timers) { pending = remove h s.timers.pending } }

unfoldable pub on_timer : Name → ℕ → Rs → Rs
on_timer pick h s = elim (find h s.timers.pending) [
  | none ↦ s
  | some cycle ↦ next pick (elapsed h s)
  | some execute ↦ let t = elapsed h s in record t { calls = execute_plan ∷ t.calls }
]

unfoldable pub on_ended : Rs → Rs
on_ended s = elim s.ending [ none ↦ s | some e ↦ after s ]

-- Listeners that the settings left out hear nothing.
unfoldable pub step : Rs → Event → Rs
step s (arrow_next pick) = elim s.settings.controls [ arrows ↦ next pick s | _ ↦ s ]
step s (arrow_prev pick) = elim s.settings.controls [ arrows ↦ prev pick s | _ ↦ s ]
step s (key pick code) = on_key pick code s
step s (thumb pick i) = elim s.settings.controls [ thumbs ↦ transition pick (pos i) none s | _ ↦ s ]
step s (timer pick h) = on_timer pick h s
step s ended = on_ended s
step s mouse_enter = if s.settings.auto_play then clear_cycling s else s
step s mouse_leave = if s.settings.auto_play then set_auto_play s else s

unfoldable pub run : Rs → List Event → Rs
run s [] = s
run s (e ∷ es) = run (step s e) es
