-- ===== src/Slitslider/Plugin.antt =====
-- The plugin function `$.fn.slitslider` of assets/js/jquery.slitslider.js on a collection of elements.
-- Elements are numbered by their place on the page, sliders are objects in a store.
pub mod Collections
use twitter_client_server.Prelude.{
  ℕ, zero, suc, ◌+◌, Bool, true, false, Option, none, some, List, [], ◌∷◌, ◌++◌, if◌then◌else◌,
  length, get_elem?, set,
}
use twitter_client_server.Slitslider.{Overrides, extend, SlideData}
use twitter_client_server.Slitslider.Slider.{Slider, Call, show, set_size, start_slideshow}
use twitter_client_server.Slitslider.Slider.Events.{init, Event, step}

-- `data_of` is the slider in the element's data; `wrapped` whether `_layout` put the slides into a
-- `div` of their own.
pub record Element : Type 0 where
  pub data_of : Option ℕ
  pub wrapped : Bool
  pub slides : List SlideData
  pub width : ℕ
  pub height : ℕ

-- A slider, the element it was made for, and how often `_loadEvents` bound its listeners.
pub record Instance : Type 0 where
  pub slider : Slider
  pub wrapper : ℕ
  pub bindings : ℕ

-- A method that the caller may call, with its arguments, or a name that `logError` says is none.
pub data Method : Type 0 where
  public_method : Event → Method
  no_method : Method

pub data Log : Type 0 where
  prior_to_initialization no_such_method : Log

pub record Page : Type 0 where
  pub elements : List Element
  pub store : List Instance
  pub logs : List Log

-- `children( ".sl-slide" )` of the element's slider
abbrev pub slides_of : Element → List SlideData
slides_of e = if e.wrapped then [] else e.slides

-- What `_layout` does to the element.
abbrev pub wrap : Element → Element
wrap e = record e { wrapped = true }

abbrev no_overrides : Overrides
no_overrides = record {
  speed = none;
  opt_opacity = none;
  translate_factor = none;
  max_angle = none;
  max_scale = none;
  autoplay = none;
  keyboard = none;
  interval = none;
}

-- `_init()`, with no options, of a slider that there is.
unfoldable pub init_again : Element → Instance → Instance
unfolding start_slideshow
init_again e i =
    let s = i.slider in
    let t = record s {
      options = extend no_overrides;
      slides = slides_of e;
      slides_count = length (slides_of e);
      current = 0;
      is_animating = false;
      width = e.width;
      height = e.height;
      calls = show 0 ∷ set_size e.width e.height ∷ s.calls;
    } in
    record i {
      slider = if t.options.autoplay then start_slideshow t else t;
      bindings = i.bindings + 1;
    }

unfoldable pub again : ℕ → List Element → List Instance → List Element × List Instance
unfolding init_again
again r es store = elim (get_elem? store r) [
  | none ↦ (es, store)
  | some i ↦ elim (get_elem? es i.wrapper) [
    | none ↦ (es, store)
    | some e ↦ (set es i.wrapper (wrap e), set store r (init_again e i))
  ]
]

-- `new $.Slitslider( options, this )`
unfoldable pub new_instance : Bool → Overrides → ℕ → Element → Instance
unfolding init
new_instance support o k e = record {
  slider = init support e.width e.height (slides_of e) o;
  wrapper = k;
  bindings = 1;
}

unfoldable pub create :
    Bool → Overrides → ℕ → List Element → List Instance → List Element × List Instance
unfolding new_instance
create support o k es store = elim (get_elem? es k) [
  | none ↦ (es, store)
  | some e ↦ (
    set es k (wrap (record e { data_of = some (length store) })),
    store ++ new_instance support o k e ∷ [],
  )
]

-- The loop of a call with options over the elements of the collection; `self` is the variable that
-- all rounds share.
unfoldable pub create_on :
    Bool
    → Overrides
    → Option ℕ
    → List ℕ
    → List Element
    → List Instance
    → List Element × List Instance
unfolding create again
create_on support o self [] es store = (es, store)
create_on support o none (k ∷ ks) es store =
    let (es', store') = create support o k es store in
    create_on support o (some (length store)) ks es' store'
create_on support o (some r) (k ∷ ks) es store =
    let (es', store') = again r es store in create_on support o (some r) ks es' store'

abbrev pub update_at : ℕ → (Slider → Slider) → List Instance → List Instance
update_at r f store = elim (get_elem? store r) [
  | none ↦ store
  | some i ↦ set store r (record i { slider = f i.slider })
]

-- The loop of a call by a name.
unfoldable pub call_on : Option ℕ → Method → List ℕ → List Instance → List Instance × List Log
unfolding step
call_on self m [] store = (store, [])
call_on none m (k ∷ ks) store =
    let rest = call_on none m ks store in (rest.0, prior_to_initialization ∷ rest.1)
call_on (some r) no_method (k ∷ ks) store =
    let rest = call_on (some r) no_method ks store in (rest.0, no_such_method ∷ rest.1)
call_on (some r) (public_method v) (k ∷ ks) store =
    call_on (some r) (public_method v) ks (update_at r (λ s. step s v) store)

pub data Argument : Type 0 where
  by_name : Method → Argument
  by_options : Overrides → Argument

-- `collection` is what `$.data` has for the collection itself, a new object with each call of `$`, and
-- `ks` are its elements.
unfoldable pub plugin : Bool → Option ℕ → Argument → List ℕ → Page → Page
unfolding create_on call_on
plugin support collection (by_name m) ks p =
    let (store, logs) = call_on collection m ks p.store in
    record p { store = store; logs = p.logs ++ logs }
plugin support collection (by_options o) ks p =
    let (elements, store) = create_on support o collection ks p.elements p.store in
    record p { elements = elements; store = store }
