-- ===== src/Accordion/Heights.antt =====
-- The heights of the items of the accordion of assets/js/jquery.accordion.js, and toggling twice.
use twitter_client_server.Prelude.{
  ℕ, zero, suc, ◌+◌, ◌<◌, ◌≡◌, ◌≢◌, refl, true, ap, not, none, Option, some, List, [], ◌∷◌, map,
  length, ◌==◌, arith, All, inl, inr, Bool-cases, Option-cases, ◌∙◌,
}
use twitter_client_server.Accordion.{
  Overrides, extend, Layout, Item, Accordion, modify, validate, save, close_item, open_item,
  end_animation, is_open_at, toggle, item_of, must_close, click, resize_item, on_resize,
}
use twitter_client_server.Accordion.Plugin.{
  new_item, created, init, Event, click_item, resized, animation_ended, step, run,
}
use twitter_client_server.Accordion.Items.{
  opened_at, closed_at, laid_out, modify_elsewhere, toggle_open, toggle_closed, toggle-length,
  on_resize-SameItems,
}

-- The height that an item comes to: its animation's, or that which it has.
abbrev pub coming_height : Item → Option ℕ
coming_height x = elim x.animated [ none ↦ x.height | some h ↦ some h ]

-- The height of its link is saved, and when it is open it comes to that and its content's.
pub record HasHeight (x : Item) : Type 0 where
  pub saved : x.original_height ≡ x.layout.link
  pub fits : x.is_open ≡ true → coming_height x ≡ some (x.layout.link + x.layout.content)

-- A resize comes when no item is animated.
abbrev pub Calm : List Event → Accordion → Type 0
unfolding step
Calm [] a = Unit
Calm (click_item i ∷ es) a = Calm es (step a (click_item i))
Calm (resized ys ∷ es) a =
    All (λ (x : Item). x.animated ≡ none) a.items × Calm es (step a (resized ys))
Calm (animation_ended i ∷ es) a = Calm es (step a (animation_ended i))

open-HasHeight : (x : Item) → HasHeight x → HasHeight (open_item x)
open-HasHeight x v = record {
  saved = v.saved;
  fits = λ o. ap (λ k. some (k + x.layout.content)) v.saved;
}

close-HasHeight : (x : Item) → HasHeight x → HasHeight (close_item x)
close-HasHeight x v = record { saved = v.saved; fits = λ o. absurd (cc) }

ended-HasHeight : (x : Item) → HasHeight x → HasHeight (end_animation x)
ended-HasHeight x v = by x.animated v.fits
  where
    by :
        (o : Option ℕ)
        → (x.is_open ≡ true
            → (elim o as (λ (y : Option ℕ). Option ℕ) [ none ↦ x.height | some h ↦ some h ])
              ≡ some (x.layout.link + x.layout.content))
        → HasHeight (elim o as (λ (y : Option ℕ). Item) [
          | none ↦ x
          | some h ↦ record x { height = some h; animated = none }
        ])
    by none f = v
    by (some h) f = record { saved = v.saved; fits = f }

modify-AllHeight :
    (f : Item → Item)
    → ((x : Item) → HasHeight x → HasHeight (f x))
    → (i : ℕ) (l : List Item) → All HasHeight l
    → All HasHeight (modify f i l)
modify-AllHeight f k i [] v = tt
modify-AllHeight f k zero (x ∷ l) v = (k x v.0, v.1)
modify-AllHeight f k (suc i) (x ∷ l) v = (v.0, modify-AllHeight f k i l v.1)

toggle-AllHeight :
    (i : ℕ) (a : Accordion) → All HasHeight a.items → All HasHeight (toggle i a).items
toggle-AllHeight i a v = elim (Bool-cases (is_open_at i a.items)) [
  | inl e ↦ rw (toggle_open i a e).1 (modify-AllHeight close_item close-HasHeight i a.items v)
  | inr e ↦ rw (toggle_closed i a e).1 (modify-AllHeight open_item open-HasHeight i a.items v)
]

click-AllHeight : (i : ℕ) (a : Accordion) → All HasHeight a.items → All HasHeight (click i a).items
unfolding click
click-AllHeight i a v = elim (Bool-cases (must_close i a)) [
  | inl e ↦ rw e (toggle-AllHeight i _ (toggle-AllHeight (item_of a.current a.items) a v))
  | inr e ↦ rw e (toggle-AllHeight i a v)
]

resize-HasHeight : (x : Item) → x.animated ≡ none → HasHeight (resize_item (save x))
resize-HasHeight x e = elim (Bool-cases x.is_open) [
  | inl o ↦ rw o (record { saved = refl; fits = λ p. rw e refl })
  | inr c ↦ rw c (record { saved = refl; fits = λ p. absurd (cc) })
]

laid_out-AllHeight :
    (ys : List Layout) (l : List Item)
    → All (λ (x : Item). x.animated ≡ none) l
    → All HasHeight (laid_out ys l)
laid_out-AllHeight [] [] r = tt
laid_out-AllHeight (y ∷ ys) [] r = tt
laid_out-AllHeight [] (x ∷ l) r = (resize-HasHeight x r.0, laid_out-AllHeight [] l r.1)
laid_out-AllHeight (y ∷ ys) (x ∷ l) r =
    (resize-HasHeight (record x { layout = y }) r.0, laid_out-AllHeight ys l r.1)

run-AllHeight :
    (es : List Event) (a : Accordion)
    → Calm es a
    → All HasHeight a.items
    → All HasHeight (run a es).items
unfolding run step
run-AllHeight [] a r v = v
run-AllHeight (click_item i ∷ es) a r v = run-AllHeight es (click i a) r (click-AllHeight i a v)
run-AllHeight (resized ys ∷ es) a r v =
    run-AllHeight es (on_resize ys a) r.1
      (rw (on_resize-SameItems ys a).items (laid_out-AllHeight ys a.items r.0))
run-AllHeight (animation_ended i ∷ es) a r v =
    run-AllHeight es _ r (modify-AllHeight end_animation ended-HasHeight i a.items v)

new-AllHeight : (ys : List Layout) → All HasHeight (map save (map new_item ys))
new-AllHeight [] = tt
new-AllHeight (y ∷ ys) = (record { saved = refl; fits = λ o. absurd (cc) }, new-AllHeight ys)

init-AllHeight : (ys : List Layout) (o : Overrides) → All HasHeight (init ys o).items
unfolding init
init-AllHeight ys o = elim (Option-cases (validate (length ys) (extend o).opened)) [
  | inl e ↦ rw (e, init) (new-AllHeight ys)
  | inr (i, e) ↦
      rw (e, init)
        (toggle-AllHeight i (record (created ys (extend o)) { current = some i })
          (new-AllHeight ys))
]

-- However the accordion is used, if each resize comes when no item is animated: the height saved of
-- each item is that of its link, and each open item has, or its animation takes it to, the height of
-- its link and its content together, as the page is laid out now.
pub run-init-AllHeight :
    (ys : List Layout) (o : Overrides) (es : List Event)
    → Calm es (init ys o)
    → All HasHeight (run (init ys o) es).items
run-init-AllHeight ys o es r = run-AllHeight es (init ys o) r (init-AllHeight ys o)

toggle_elsewhere :
    (i j : ℕ) (a : Accordion) → i ≢ j → is_open_at j (toggle i a).items ≡ is_open_at j a.items
toggle_elsewhere i j a n = elim (Bool-cases (is_open_at i a.items)) [
  | inl e ↦ rw (toggle_open i a e).1 (modify_elsewhere close_item i j a.items n)
  | inr e ↦ rw (toggle_closed i a e).1 (modify_elsewhere open_item i j a.items n)
]

toggle_here :
    (i : ℕ) (a : Accordion)
    → i < length a.items
    → is_open_at i (toggle i a).items ≡ not (is_open_at i a.items)
toggle_here i a h = elim (Bool-cases (is_open_at i a.items)) [
  | inl e ↦ rw ((toggle_open i a e).1, e) (closed_at i a.items)
  | inr e ↦ rw ((toggle_closed i a e).1, e) (opened_at i a.items h)
]

toggled_twice :
    (i : ℕ) (a : Accordion)
    → i < length a.items
    → is_open_at i (toggle i (toggle i a)).items ≡ is_open_at i a.items
toggled_twice i a h =
    ground (arith, toggle_here i (toggle i a) (rw (toggle-length i a) h), toggle_here i a h)

-- Toggling one of the items twice leaves open the items that were open, and no others.
pub toggle-toggle :
    (i : ℕ) (a : Accordion)
    → i < length a.items
    → (j : ℕ) → is_open_at j (toggle i (toggle i a)).items ≡ is_open_at j a.items
toggle-toggle i a h j = elim (Bool-cases (i == j)) [
  | inl q ↦ ground (arith, toggled_twice i a h)
  | inr q ↦
      toggle_elsewhere i j (toggle i a) (λ p. ground arith)
      ∙ toggle_elsewhere i j a (λ p. ground arith)
]
