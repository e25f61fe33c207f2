-- ===== src/RefineSlide/ImagesLoaded.antt =====
-- The plugin `imagesLoaded` in assets/js/jquery.refineslide.js: it waits for a list of images. An
-- image is known by its place in the list.
pub mod Done
use twitter_client_server.Prelude.{
  ℕ, suc, ◌+◌, Bool, true, false, ◌&&◌, ◌||◌, Option, none, some, List, [], ◌∷◌, if◌then◌else◌,
  ◌==◌, length, get_elem?,
}

-- What the plugin finds when it looks at an image: whether its source is the blank image, what an
-- earlier call kept of it for the same source, and whether the browser says that it is complete,
-- with a natural size that is zero or not if it knows natural sizes. `true` is a broken image.
pub record Element : Type 0 where
  pub blank : Bool
  pub cached : Option Bool
  pub complete : Bool
  pub natural_broken : Option Bool
  pub ready_state : Bool

pub record Loading : Type 0 where
  pub elements : List Element
  pub loaded : List ℕ
  pub proper : List ℕ
  pub broken : List ℕ
  pub bound : Bool  -- the listeners for `load` and `error`
  pub cache : List (ℕ × Bool)
  pub reset : List ℕ  -- images whose source was set anew
  pub done_calls : ℕ  -- of `doneLoading`, at once or by a timer

abbrev pub mem : ℕ → List ℕ → Bool
mem i [] = false
mem i (j ∷ l) = (j == i) || mem i l

abbrev pub is_blank : ℕ → List Element → Bool
is_blank i l = elim (get_elem? l i) [ none ↦ false | some x ↦ x.blank ]

abbrev pub push : ℕ → Bool → Loading → Loading
push i is_broken s = record s {
  loaded = i ∷ s.loaded;
  proper = if is_broken then s.proper else i ∷ s.proper;
  broken = if is_broken then i ∷ s.broken else s.broken;
  cache = (i, is_broken) ∷ s.cache;
}

abbrev pub finish : Loading → Loading
finish s =
    if length s.elements == length s.loaded
    then record s { done_calls = s.done_calls + 1; bound = false }
    else s

-- `imgLoaded`
unfoldable pub img_loaded : ℕ → Bool → Loading → Loading
img_loaded i is_broken s =
    if is_blank i s.elements || mem i s.loaded then s else finish (push i is_broken s)

-- What is known of an image before any event: whether it is broken.
abbrev pub verdict : Element → Option Bool
verdict x = elim x.cached [ some b ↦ some b | none ↦ if x.complete then x.natural_broken else none ]

abbrev pub look_at : ℕ → Element → Loading → Loading
look_at i x s = elim (verdict x) [
  | some b ↦ img_loaded i b s
  | none ↦ if x.ready_state || x.complete then record s { reset = i ∷ s.reset } else s
]

-- The loop over the images, from the one at place `i` on.
unfoldable pub look : ℕ → List Element → Loading → Loading
look i [] s = s
look i (x ∷ l) s = look (suc i) l (look_at i x s)

abbrev pub waiting : List Element → Loading
waiting els = record {
  elements = els;
  loaded = [];
  proper = [];
  broken = [];
  bound = true;
  cache = [];
  reset = [];
  done_calls = 0;
}

-- The call of the plugin.
unfoldable pub start : List Element → Loading
unfolding look
start [] = record (waiting []) { bound = false; done_calls = 1 }
start (x ∷ els) = look 0 (x ∷ els) (waiting (x ∷ els))

-- The event `load` or, if the flag is set, `error` of an image.
pub data Event : Type 0 where
  event : ℕ → Bool → Event

unfoldable pub step : Loading → Event → Loading
step s (event i is_error) = if s.bound then img_loaded i is_error s else s

unfoldable pub run : Loading → List Event → Loading
run s [] = s
run s (e ∷ es) = run (step s e) es
