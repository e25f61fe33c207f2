-- ===== src/Accordion/Items.antt =====
-- What the operations of the accordion of assets/js/jquery.accordion.js do to its list of items.
use twitter_client_server.Prelude.{
  ℕ, zero, suc, ◌<◌, ◌≡◌, ◌≢◌, refl, Bool, true, false, none, some, List, [], ◌∷◌, map, length,
  length-map, if◌then◌else◌, arith, inl, inr, Bool-cases, Option-cases, ap, ◌∙◌,
}
use twitter_client_server.Prelude.Int.{ℤ, pos, negsuc}
use twitter_client_server.Accordion.{
  Layout, Item, Accordion, modify, validate, save, any_open, is_opened, scroll, close_item,
  open_item, end_animation, is_open_at, toggle, must_close, click, resize_item, lay_out, on_resize,
  scroll_target,
}
use twitter_client_server.Accordion.Plugin.{new_item}

pub length-modify : (f : Item → Item) (i : ℕ) (l : List Item) → length (modify f i l) ≡ length l
length-modify f i [] = refl
length-modify f zero (x ∷ l) = refl
length-modify f (suc i) (x ∷ l) = ap suc (length-modify f i l)

pub opened_at : (i : ℕ) (l : List Item) → i < length l → is_open_at i (modify open_item i l) ≡ true
opened_at i [] h = absurd (omega arith)
opened_at zero (x ∷ l) h = refl
opened_at (suc i) (x ∷ l) h = opened_at i l (omega arith)

pub closed_at : (i : ℕ) (l : List Item) → is_open_at i (modify close_item i l) ≡ false
closed_at i [] = refl
closed_at zero (x ∷ l) = refl
closed_at (suc i) (x ∷ l) = closed_at i l

pub modify_elsewhere :
    (f : Item → Item) (i j : ℕ) (l : List Item)
    → i ≢ j
    → is_open_at j (modify f i l) ≡ is_open_at j l
modify_elsewhere f i j [] n = refl
modify_elsewhere f zero zero (x ∷ l) n = absurd (n refl)
modify_elsewhere f zero (suc j) (x ∷ l) n = refl
modify_elsewhere f (suc i) zero (x ∷ l) n = refl
modify_elsewhere f (suc i) (suc j) (x ∷ l) n = modify_elsewhere f i j l (λ e. n (ap suc e))

pub ended_at : (i j : ℕ) (l : List Item) → is_open_at j (modify end_animation i l) ≡ is_open_at j l
ended_at i j [] = refl
ended_at zero zero (x ∷ l) = elim (Option-cases x.animated) [
  | inl e ↦ rw e refl
  | inr (h, e) ↦ rw e refl
]
ended_at zero (suc j) (x ∷ l) = refl
ended_at (suc i) zero (x ∷ l) = refl
ended_at (suc i) (suc j) (x ∷ l) = ended_at i j l

pub any_open_at : (j : ℕ) (l : List Item) → is_open_at j l ≡ true → any_open l ≡ true
any_open_at j [] e = e
any_open_at zero (x ∷ l) e = ground arith
any_open_at (suc j) (x ∷ l) e = ground (arith, any_open_at j l e)

pub closed_of_none : (j : ℕ) (l : List Item) → any_open l ≡ false → is_open_at j l ≡ false
closed_of_none j l e = elim (Bool-cases (is_open_at j l)) [
  | inl o ↦ ground (arith, any_open_at j l o)
  | inr o ↦ o
]

pub none_open : (l : List Item) → ((j : ℕ) → is_open_at j l ≡ false) → any_open l ≡ false
none_open [] h = refl
none_open (x ∷ l) h = ground (arith, h 0, none_open l (λ j. h (suc j)))

-- `_scroll` only scrolls.
pub record SameItems (a b : Accordion) : Type 0 where
  pub items : a.items ≡ b.items
  pub current : a.current ≡ b.current
  pub options : a.options ≡ b.options

pub scroll-SameItems : (a : Accordion) → SameItems (scroll a) a
unfolding scroll
scroll-SameItems a = elim (Option-cases (scroll_target a)) [
  | inl e ↦ rw (e, scroll) (record { items = refl; current = refl; options = refl })
  | inr (i, e) ↦ rw (e, scroll) (record { items = refl; current = refl; options = refl })
]

pub toggle_open :
    (i : ℕ) (a : Accordion)
    → is_open_at i a.items ≡ true
    → ((toggle i a).current ≡ none) × ((toggle i a).items ≡ modify close_item i a.items)
unfolding toggle
toggle_open i a e = rw e (refl, refl)

pub toggle_closed :
    (i : ℕ) (a : Accordion)
    → is_open_at i a.items ≡ false
    → ((toggle i a).current ≡ some i) × ((toggle i a).items ≡ modify open_item i a.items)
unfolding toggle
toggle_closed i a e = rw e ((scroll-SameItems _).current, (scroll-SameItems _).items)

pub toggle-options : (i : ℕ) (a : Accordion) → (toggle i a).options ≡ a.options
unfolding toggle
toggle-options i a = elim (Bool-cases (is_open_at i a.items)) [
  | inl e ↦ rw e refl
  | inr e ↦ rw e (scroll-SameItems _).options
]

pub toggle-length : (i : ℕ) (a : Accordion) → length (toggle i a).items ≡ length a.items
toggle-length i a = elim (Bool-cases (is_open_at i a.items)) [
  | inl e ↦ ap length (toggle_open i a e).1 ∙ length-modify close_item i a.items
  | inr e ↦ ap length (toggle_closed i a e).1 ∙ length-modify open_item i a.items
]

pub saved_at :
    (j : ℕ) (l : List Item) → is_open_at j (map resize_item (map save l)) ≡ is_open_at j l
saved_at j [] = refl
saved_at zero (x ∷ l) = ground arith
saved_at (suc j) (x ∷ l) = saved_at j l

abbrev pub laid_out : List Layout → List Item → List Item
laid_out ys l = map resize_item (map save (lay_out ys l))

pub resized_at :
    (ys : List Layout) (j : ℕ) (l : List Item) → is_open_at j (laid_out ys l) ≡ is_open_at j l
resized_at [] j l = saved_at j l
resized_at (y ∷ ys) j [] = refl
resized_at (y ∷ ys) zero (x ∷ l) = ground arith
resized_at (y ∷ ys) (suc j) (x ∷ l) = resized_at ys j l

pub length_resized : (ys : List Layout) (l : List Item) → length (laid_out ys l) ≡ length l
length_resized [] l = length-map (map save l) resize_item ∙ length-map l save
length_resized (y ∷ ys) [] = refl
length_resized (y ∷ ys) (x ∷ l) = ap suc (length_resized ys l)

pub if-SameItems :
    (b : Bool) (s t a : Accordion)
    → SameItems s a
    → SameItems t a
    → SameItems (if b then s else t) a
if-SameItems true s t a v w = v
if-SameItems false s t a v w = w

pub on_resize-SameItems :
    (ys : List Layout) (a : Accordion)
    → SameItems (on_resize ys a) (record a { items = laid_out ys a.items })
unfolding on_resize
on_resize-SameItems ys a =
    let b = record a { items = laid_out ys a.items } in
    if-SameItems (is_opened b) (scroll b) b b (scroll-SameItems b)
      (record { items = refl; current = refl; options = refl })

pub click-options : (i : ℕ) (a : Accordion) → (click i a).options ≡ a.options
unfolding click
click-options i a = elim (Bool-cases (must_close i a)) [
  | inl e ↦ rw e (toggle-options i _ ∙ toggle-options _ a)
  | inr e ↦ rw e (toggle-options i a)
]

pub click-length : (i : ℕ) (a : Accordion) → length (click i a).items ≡ length a.items
unfolding click
click-length i a = elim (Bool-cases (must_close i a)) [
  | inl e ↦ rw e (toggle-length i _ ∙ toggle-length _ a)
  | inr e ↦ rw e (toggle-length i a)
]

pub new-length : (ys : List Layout) → length (map save (map new_item ys)) ≡ length ys
new-length [] = refl
new-length (y ∷ ys) = ap suc (new-length ys)

pub new_at : (j : ℕ) (ys : List Layout) → is_open_at j (map save (map new_item ys)) ≡ false
new_at j [] = refl
new_at zero (y ∷ ys) = refl
new_at (suc j) (y ∷ ys) = new_at j ys

pub validate-below : (n i : ℕ) (z : ℤ) → validate n z ≡ some i → i < n
unfolding validate
validate-below n i (negsuc k) e = absurd (ground arith)
validate-below n i (pos k) e = ground arith
