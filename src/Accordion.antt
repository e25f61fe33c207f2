-- ===== src/Accordion.antt =====
-- The accordion of assets/js/jquery.accordion.js. What is asked of jQuery is kept as a list of
-- calls, the newest first; `none` as the current item is the -1 of the source, and `opened` is its
-- option `open`. The items stand in one list of the page.
pub mod Plugin
pub mod Items
pub mod Open
pub mod Heights
pub mod Examples
use twitter_client_server.Prelude.{
  ℕ, zero, suc, ◌+◌, ◌-◌, Bool, true, false, not, ◌&&◌, ◌||◌, Option, none, some, List, [], ◌∷◌,
  map, if◌then◌else◌, ◌==◌, leb, length, get_elem?,
}
use twitter_client_server.Prelude.Int.{ℤ, pos, negsuc}
use mathlib.Core.Option.{get_or}

pub record Options : Type 0 where
  pub opened : ℤ
  pub one_opened_item : Bool
  pub speed : ℕ
  pub scroll_speed : ℕ

pub record Overrides : Type 0 where
  pub opened : Option ℤ
  pub one_opened_item : Option Bool
  pub speed : Option ℕ
  pub scroll_speed : Option ℕ

abbrev pub defaults : Options
defaults = record { opened = negsuc 0; one_opened_item = false; speed = 600; scroll_speed = 900 }

abbrev pub extend : Overrides → Options
extend o = record {
  opened = get_or o.opened defaults.opened;
  one_opened_item = get_or o.one_opened_item defaults.one_opened_item;
  speed = get_or o.speed defaults.speed;
  scroll_speed = get_or o.scroll_speed defaults.scroll_speed;
}

-- How the browser lays an item out: the height of its link, its distance from the top of the page,
-- and the height of its content.
pub record Layout : Type 0 where
  pub link : ℕ
  pub top : ℕ
  pub content : ℕ

-- `height` is what the item's height was set to, `none` for the style sheet's, and `animated` what a
-- running animation takes it to: each of its frames sets the height anew.
pub record Item : Type 0 where
  pub layout : Layout
  pub original_height : ℕ
  pub offset_top : ℕ
  pub is_open : Bool
  pub height : Option ℕ
  pub animated : Option ℕ

pub data Call : Type 0 where
  hide fade_in fade_out : ℕ → Call
  scroll_to : ℕ → Call  -- to a distance from the top that was saved
  scroll_to_item : ℕ → Call  -- to where the item stands now

pub record Accordion : Type 0 where
  pub options : Options
  pub items : List Item
  pub current : Option ℕ
  pub calls : List Call

-- A change of one item.
abbrev pub modify : (Item → Item) → ℕ → List Item → List Item
modify f i [] = []
modify f zero (x ∷ l) = f x ∷ l
modify f (suc i) (x ∷ l) = x ∷ modify f i l

-- `_validate`: the item to open, when there is such an item.
unfoldable pub validate : ℕ → ℤ → Option ℕ
validate count (negsuc n) = none
validate count (pos i) = if leb count i then none else some i

-- `_saveDimValues`, for one item
abbrev pub save : Item → Item
save x = record x { original_height = x.layout.link; offset_top = x.layout.top }

-- `_isOpened`
abbrev pub any_open : List Item → Bool
any_open [] = false
any_open (x ∷ l) = x.is_open || any_open l

unfoldable pub is_opened : Accordion → Bool
is_opened a = any_open a.items

-- The last open item, `li.st-open:last`; the source has -1 for none.
abbrev pub last_open : List Item → Option ℕ
last_open [] = none
last_open (x ∷ l) = elim (last_open l) [
  | some i ↦ some (suc i)
  | none ↦ if x.is_open then some 0 else none
]

abbrev pub scroll_call : Bool → ℕ → List Item → Call
scroll_call true i l = elim (get_elem? l i) [
  | some x ↦ scroll_to x.offset_top
  | none ↦ scroll_to_item i
]
scroll_call false i l = scroll_to_item i

abbrev pub scroll_target : Accordion → Option ℕ
scroll_target a = elim a.current [ some i ↦ some i | none ↦ last_open a.items ]

-- `_scroll`; it is called when an item is open.
unfoldable pub scroll : Accordion → Accordion
scroll a = elim (scroll_target a) [
  | none ↦ a
  | some i ↦ record a { calls = scroll_call a.options.one_opened_item i a.items ∷ a.calls }
]

abbrev pub close_item : Item → Item
close_item x = record x { is_open = false; animated = some x.original_height }

abbrev pub open_item : Item → Item
open_item x = record x { is_open = true; animated = some (x.original_height + x.layout.content) }

abbrev pub is_open_at : ℕ → List Item → Bool
is_open_at i l = elim (get_elem? l i) [ none ↦ false | some x ↦ x.is_open ]

-- `_toggleItem`
unfoldable pub toggle : ℕ → Accordion → Accordion
toggle i a =
    if is_open_at i a.items
    then record a {
      current = none;
      items = modify close_item i a.items;
      calls = fade_out i ∷ a.calls;
    }
    else scroll (record a {
      current = some i;
      items = modify open_item i a.items;
      calls = fade_in i ∷ a.calls;
    })

abbrev pub differs : Option ℕ → ℕ → Bool
differs none i = true
differs (some j) i = not (j == i)

-- `$items.eq(current)`, where -1 is the last item
abbrev pub item_of : Option ℕ → List Item → ℕ
item_of (some j) l = j
item_of none l = length l - 1

abbrev pub must_close : ℕ → Accordion → Bool
must_close i a = a.options.one_opened_item && (is_opened a && differs a.current i)

-- The click on an item: another that is open is closed first, when only one may be.
unfoldable pub click : ℕ → Accordion → Accordion
click i a = toggle i (if must_close i a then toggle (item_of a.current a.items) a else a)

-- The end of the animation of an item's height.
abbrev pub end_animation : Item → Item
end_animation x = elim x.animated [
  | none ↦ x
  | some h ↦ record x { height = some h; animated = none }
]

-- The handler sets the height, and does not stop an animation.
abbrev pub resize_item : Item → Item
resize_item x =
    if x.is_open then record x { height = some (x.original_height + x.layout.content) } else x

abbrev pub lay_out : List Layout → List Item → List Item
lay_out (y ∷ ys) (x ∷ l) = record x { layout = y } ∷ lay_out ys l
lay_out _ l = l

-- The debounced resize, when the browser has laid out the page anew.
unfoldable pub on_resize : List Layout → Accordion → Accordion
on_resize ys a =
    let b = record a { items = map resize_item (map save (lay_out ys a.items)) } in
    if is_opened b then scroll b else b
