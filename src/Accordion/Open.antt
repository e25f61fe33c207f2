-- ===== src/Accordion/Open.antt =====
-- Which items of the accordion of assets/js/jquery.accordion.js are open.
use twitter_client_server.Prelude.{
  ℕ, ◌<◌, ◌≡◌, ◌≢◌, refl, sym, Bool, true, false, Option, none, some, List, [], ◌∷◌, length, ◌==◌,
  arith, All, inl, inr, Bool-cases, Option-cases, ap, ◌∙◌,
}
use twitter_client_server.Accordion.{
  Options, Overrides, extend, Layout, Accordion, validate, any_open, is_opened, close_item,
  open_item, end_animation, is_open_at, toggle, differs, item_of, must_close, click, on_resize,
}
use twitter_client_server.Accordion.Plugin.{
  created, init, Event, click_item, resized, animation_ended, step, run,
}
use twitter_client_server.Accordion.Items.{
  click-length, click-options, closed_at, closed_of_none, ended_at, length-modify, length_resized,
  modify_elsewhere, new-length, new_at, none_open, on_resize-SameItems, opened_at, resized_at,
  toggle-length, toggle-options, toggle_closed, toggle_open, validate-below,
}

abbrev pub is_current : ℕ → Option ℕ → Bool
is_current j none = false
is_current j (some i) = i == j

-- The open item is the current one.
abbrev pub IsExclusive : Accordion → Type 0
IsExclusive a = (j : ℕ) → is_open_at j a.items ≡ is_current j a.current

-- A click on one of `n` items.
abbrev pub Within : ℕ → Event → Type 0
Within n (click_item i) = i < n
Within n (resized ys) = Unit
Within n (animation_ended i) = Unit

current_unique : (i j : ℕ) (c : Option ℕ) → is_current i c ≡ true → i ≢ j → is_current j c ≡ false
current_unique i j none e n = refl
current_unique i j (some k) e n = ground arith

is_current-some : (i : ℕ) (c : Option ℕ) → is_current i c ≡ true → c ≡ some i
is_current-some i none e = absurd (ground arith)
is_current-some i (some k) e = ap some (ground arith)

-- Closing the open item leaves none open.
closing :
    (i : ℕ) (a : Accordion)
    → IsExclusive a
    → is_open_at i a.items ≡ true
    → (j : ℕ) → is_open_at j (toggle i a).items ≡ false
closing i a v e j = rw (toggle_open i a e).1 (elim (Bool-cases (i == j)) [
  | inl q ↦ ground (arith, closed_at i a.items)
  | inr q ↦
      modify_elsewhere close_item i j a.items (λ p. ground arith)
      ∙ v j
      ∙ current_unique i j a.current (ground (arith, v i)) (λ p. ground arith)
])

opening :
    (i : ℕ) (a : Accordion)
    → ((j : ℕ) → is_open_at j a.items ≡ false)
    → i < length a.items
    → IsExclusive (toggle i a)
opening i a v h j =
    rw ((toggle_closed i a (v i)).1, (toggle_closed i a (v i)).0)
      (elim (Bool-cases (i == j)) [
        | inl q ↦ ground (arith, opened_at i a.items h)
        | inr q ↦ ground (arith, modify_elsewhere open_item i j a.items, v j)
      ])

closed-IsExclusive :
    (i : ℕ) (a : Accordion) → IsExclusive a → is_open_at i a.items ≡ true → IsExclusive (toggle i a)
closed-IsExclusive i a v e j = closing i a v e j ∙ ap (is_current j) (sym (toggle_open i a e).0)

-- No item is open when none is current.
all_closed :
    (a : Accordion)
    → IsExclusive a
    → any_open a.items ≡ false
    → (j : ℕ) → is_open_at j a.items ≡ false
all_closed a v e j = closed_of_none j a.items e

none_current : (a : Accordion) → IsExclusive a → a.current ≡ none → any_open a.items ≡ false
none_current a v e = none_open a.items (λ j. v j ∙ ap (is_current j) e)

must_close-open :
    (i : ℕ) (a : Accordion)
    → IsExclusive a
    → must_close i a ≡ true
    → is_open_at (item_of a.current a.items) a.items ≡ true
unfolding is_opened
must_close-open i a v e = by a.current refl
  where
    by : (c : Option ℕ) → a.current ≡ c → is_open_at (item_of c a.items) a.items ≡ true
    by none q = absurd (ground (arith, none_current a v q))
    by (some k) q = v k ∙ ap (is_current k) q ∙ ground arith

not_opened :
    (i : ℕ) (a : Accordion) (c : Option ℕ)
    → IsExclusive a
    → a.options.one_opened_item ≡ true
    → must_close i a ≡ false
    → is_open_at i a.items ≡ false
    → a.current ≡ c
    → any_open a.items ≡ false
unfolding is_opened
not_opened i a none v o m e q = none_current a v q
not_opened i a (some k) v o m e q =
    ground (arith, v i, ap (is_current i) q, ap (λ (c : Option ℕ). differs c i) q)

toggle-IsExclusive :
    (i : ℕ) (a : Accordion)
    → IsExclusive a
    → a.options.one_opened_item ≡ true
    → must_close i a ≡ false
    → i < length a.items
    → IsExclusive (toggle i a)
toggle-IsExclusive i a v o m h = elim (Bool-cases (is_open_at i a.items)) [
  | inl e ↦ closed-IsExclusive i a v e
  | inr e ↦ opening i a (all_closed a v (not_opened i a a.current v o m e refl)) h
]

click-IsExclusive :
    (i : ℕ) (a : Accordion)
    → IsExclusive a
    → a.options.one_opened_item ≡ true
    → i < length a.items
    → IsExclusive (click i a)
unfolding click
click-IsExclusive i a v o h = elim (Bool-cases (must_close i a)) [
  | inl e ↦
      let k = item_of a.current a.items in
      rw e (
        opening i (toggle k a) (closing k a v (must_close-open i a v e)) (rw (toggle-length k a) h))
  | inr e ↦ rw e (toggle-IsExclusive i a v o e h)
]

-- What every event keeps when only one item may be open: there are `n` items.
record IsKept (n : ℕ) (a : Accordion) : Type 0 where
  exclusive : IsExclusive a
  one : a.options.one_opened_item ≡ true
  size : length a.items ≡ n

on_resize-IsKept :
    (n : ℕ) (ys : List Layout) (a : Accordion) → IsKept n a → IsKept n (on_resize ys a)
on_resize-IsKept n ys a v =
    let s = on_resize-SameItems ys a in
    record {
      exclusive = λ j.
          ap (is_open_at j) s.items
          ∙ resized_at ys j a.items
          ∙ v.exclusive j
          ∙ ap (is_current j) (sym s.current);
      one = ap (λ (o : Options). o.one_opened_item) s.options ∙ v.one;
      size = ap length s.items ∙ length_resized ys a.items ∙ v.size;
    }

run-IsKept :
    (n : ℕ) (es : List Event) (a : Accordion) → All (Within n) es → IsKept n a → IsKept n (run a es)
unfolding run step
run-IsKept n [] a w v = v
run-IsKept n (click_item i ∷ es) a w v = run-IsKept n es (click i a) w.1 (record {
  exclusive = click-IsExclusive i a v.exclusive v.one (rw v.size w.0);
  one = ap (λ (o : Options). o.one_opened_item) (click-options i a) ∙ v.one;
  size = click-length i a ∙ v.size;
})
run-IsKept n (resized ys ∷ es) a w v =
    run-IsKept n es (on_resize ys a) w.1 (on_resize-IsKept n ys a v)
run-IsKept n (animation_ended i ∷ es) a w v = run-IsKept n es _ w.1 (record {
  exclusive = λ j. ended_at i j a.items ∙ v.exclusive j;
  one = v.one;
  size = length-modify end_animation i a.items ∙ v.size;
})

init-IsKept :
    (ys : List Layout) (o : Overrides)
    → (extend o).one_opened_item ≡ true
    → IsKept (length ys) (init ys o)
unfolding init
init-IsKept ys o q = elim (Option-cases (validate (length ys) (extend o).opened)) [
  | inl e ↦ rw (e, init) (record { exclusive = λ j. new_at j ys; one = q; size = new-length ys })
  | inr (i, e) ↦
      let a = record (created ys (extend o)) { current = some i } in
      rw (e, init)
        (record {
          exclusive =
              opening i a (λ j. new_at j ys)
                (rw (new-length ys) (validate-below (length ys) i _ e));
          one = ap (λ (p : Options). p.one_opened_item) (toggle-options i a) ∙ q;
          size = toggle-length i a ∙ new-length ys;
        })
]

-- With `oneOpenedItem` set, after every sequence of clicks on its items, of resizes and of ends of
-- animations, the item that is open is the current one, and no other is.
pub run-init-IsExclusive :
    (ys : List Layout) (o : Overrides) (es : List Event)
    → (extend o).one_opened_item ≡ true
    → All (Within (length ys)) es
    → IsExclusive (run (init ys o) es)
run-init-IsExclusive ys o es q w =
    (run-IsKept (length ys) es (init ys o) w (init-IsKept ys o q)).exclusive
