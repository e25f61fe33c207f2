-- ===== src/Inview.antt =====
-- The event `inview` of assets/js/jquery.inview.js: elements are told when they come into the window
-- and when they leave it.
pub mod Triggers
use twitter_client_server.Prelude.{
  ℕ, ◌+◌, Bool, true, false, not, ◌||◌, Option, none, some, List, [], ◌∷◌, map, if◌then◌else◌, ◌==◌,
  ltb,
}

pub data CompatMode : Type 0 where
  css1_compat back_compat : CompatMode

-- What the script reads of the window and of the document; lengths are in pixels.
pub record Window : Type 0 where
  pub inner_height : ℕ
  pub compat_mode : Option CompatMode
  pub box_model : Bool
  pub root_height : ℕ
  pub body_height : ℕ
  pub root_scroll_top : ℕ
  pub body_scroll_top : ℕ

-- `getViewportHeight`
unfoldable pub viewport_height : Window → ℕ
viewport_height w = elim w.compat_mode [
  | some css1_compat ↦ w.root_height
  | some back_compat ↦ w.body_height
  | none ↦ if not w.box_model then w.body_height else w.inner_height
]

unfoldable pub scroll_top : Window → ℕ
scroll_top w = if w.root_scroll_top == 0 then w.body_scroll_top else w.root_scroll_top

-- An element that is bound to `inview`: its number, its data `inview`, and the events that were
-- triggered on it, the newest first.
pub record Watched : Type 0 where
  pub number : ℕ
  pub inview : Bool
  pub triggered : List Bool

-- Where an element is laid out: its top and its height.
pub record Box : Type 0 where
  pub top : ℕ
  pub height : ℕ

abbrev pub is_outside : ℕ → ℕ → Box → Bool
is_outside scrolled vp_h b = ltb (b.top + b.height) scrolled || ltb (scrolled + vp_h) b.top

abbrev pub told : Bool → Watched → Watched
told v e = record e { inview = v; triggered = v ∷ e.triggered }

-- What a scroll does to one element.
unfoldable pub check : ℕ → ℕ → Box → Watched → Watched
check scrolled vp_h b e =
    if is_outside scrolled vp_h b
    then (if e.inview then told false e else e)
    else if ltb scrolled (b.top + b.height)
    then (if not e.inview then told true e else e)
    else e

-- The listener for `scroll`, on a page that is laid out as `boxes` says.
unfoldable pub on_scroll : Window → (ℕ → Box) → List Watched → List Watched
on_scroll w boxes es = map (λ e. check (scroll_top w) (viewport_height w) (boxes e.number) e) es

-- A page on which every element has yet to be told.
abbrev pub watch : List ℕ → List Watched
watch [] = []
watch (n ∷ ns) = record { number = n; inview = false; triggered = [] } ∷ watch ns

unfoldable pub run : List Watched → List (Window × (ℕ → Box)) → List Watched
run es [] = es
run es ((w, boxes) ∷ l) = run (on_scroll w boxes es) l
