-- ===== src/Accordion/Plugin.antt =====
-- The start of the accordion of assets/js/jquery.accordion.js, its events, and `$.fn.accordion`.
use twitter_client_server.Prelude.{
  ℕ, suc, Bool, false, not, Option, none, some, List, [], ◌∷◌, map, length, if◌then◌else◌,
}
use twitter_client_server.Accordion.{
  Options, Overrides, extend, Layout, Item, Call, hide, Accordion, modify, end_animation, validate,
  save, toggle, click, on_resize,
}

abbrev pub new_item : Layout → Item
new_item y = record {
  layout = y;
  original_height = 0;
  offset_top = 0;
  is_open = false;
  height = none;
  animated = none;
}

abbrev pub hide_all : ℕ → List Item → List Call → List Call
hide_all i [] cs = cs
hide_all i (x ∷ l) cs = hide_all (suc i) l (hide i ∷ cs)

-- `$.Accordion` and `_init`, up to the item that is opened
abbrev pub created : List Layout → Options → Accordion
created ys o = record {
  options = o;
  items = map save (map new_item ys);
  current = none;
  calls = hide_all 0 (map new_item ys) [];
}

unfoldable pub init : List Layout → Overrides → Accordion
init ys o = elim (validate (length ys) (extend o).opened) [
  | none ↦ created ys (extend o)
  | some i ↦ toggle i (record (created ys (extend o)) { current = some i })
]

pub data Event : Type 0 where
  click_item : ℕ → Event
  resized : List Layout → Event
  animation_ended : ℕ → Event

-- A click is on an item that exists.
unfoldable pub step : Accordion → Event → Accordion
step a (click_item i) = click i a
step a (resized ys) = on_resize ys a
step a (animation_ended i) = record a { items = modify end_animation i a.items }

unfoldable pub run : Accordion → List Event → Accordion
run a [] = a
run a (e ∷ es) = run (step a e) es

-- What `$.fn.accordion` was called with: a method's name, of which only whether it is a method that
-- does not begin with "_" counts, or options.
pub data Argument : Type 0 where
  method : Bool → (Accordion → Accordion) → Argument
  options : Overrides → Argument

pub data Outcome : Type 0 where
  ok no_instance no_method : Outcome

-- `$.fn.accordion`, for one element, whose data may hold an accordion already.
unfoldable pub plugin : List Layout → Argument → Option Accordion → Option Accordion × Outcome
plugin ys (method known f) none = (none, no_instance)
plugin ys (method known f) (some a) = if not known then (some a, no_method) else (some (f a), ok)
plugin ys (options o) none = (some (init ys o), ok)
plugin ys (options o) (some a) = (some a, ok)
