-- ===== src/Flexslider/Slides.antt =====
-- `addSlide`, `removeSlide` and `update` of assets/js/jquery.flexslider.js, with the paging that
-- `controlNav` keeps, for a slider that is no carousel and not both vertical and reversed.
pub mod Kept
pub mod Places
pub mod Dots
use twitter_client_server.Prelude.{
  ℕ, zero, suc, ◌+◌, ◌-◌, ◌≡◌, Bool, true, false, not, ◌&&◌, ◌||◌, Option, none, some, List, [],
  ◌∷◌, ◌++◌, if◌then◌else◌, ◌==◌, ltb, leb, length,
}

pub data Action : Type 0 where
  add remove : Action

-- The slides by their numbers, in the order of the page. `dots` counts the links of the paging, and
-- `last` is the number of slides less one.
pub record Slides : Type 0 where
  pub slides : List ℕ
  pub last : ℕ
  pub current_slide : ℕ
  pub animating_to : ℕ
  pub dots : ℕ

-- `doMath` makes it the number of the slides.
abbrev pub paging_count : Slides → ℕ
paging_count s = s.last + 1

unfoldable pub insert_before : ℕ → ℕ → List ℕ → List ℕ
insert_before k x [] = []
insert_before zero x (y ∷ ys) = x ∷ y ∷ ys
insert_before (suc k) x (y ∷ ys) = y ∷ insert_before k x ys

unfoldable pub remove_at : ℕ → List ℕ → List ℕ
remove_at k [] = []
remove_at zero (y ∷ ys) = ys
remove_at (suc k) (y ∷ ys) = y ∷ remove_at k ys

-- The first part of `update`; no place is an `undefined` one.
unfoldable pub move_current : Option ℕ → Slides → Slides
move_current none s = record s { animating_to = s.current_slide }
move_current (some p) s =
    let c =
      if ltb p s.current_slide
      then s.current_slide + 1
      else if leb p s.current_slide && not (p == 0)
      then s.current_slide - 1
      else s.current_slide in
    record s { current_slide = c; animating_to = c }

abbrev pub is_add : Action → Bool
is_add add = true
is_add remove = false

abbrev pub drop_dot : Option ℕ → ℕ → ℕ
drop_dot none n = n
drop_dot (some p) n = if ltb p n then n - 1 else n

-- `controlNav.update`, up to its call of `update`.
unfoldable pub change_dots : Action → Option ℕ → Slides → Slides
change_dots action p s =
    if ltb 1 (paging_count s) && is_add action
    then record s { dots = s.dots + 1 }
    else if paging_count s == 1
    then record s { dots = 0 }
    else record s { dots = drop_dot p s.dots }

-- `update`, which calls `controlNav.update`, which calls `update` while the paging has the wrong
-- number of links.
unfoldable pub update : ℕ → Option ℕ → Action → Slides → Option Slides
unfolding move_current change_dots
update zero p action s = none
update (suc fuel) p action s =
    let m = move_current p s in
    let adds = is_add action || ltb m.dots (paging_count m) in
    let q = if adds then none else some m.last in
    let d = change_dots (if adds then add else remove) q m in
    let again = update fuel q (if adds then add else remove) d in
    if ltb 1 (paging_count d) && not (paging_count d == d.dots) then again else some d

abbrev pub inserted : ℕ → Option ℕ → Slides → Slides
inserted x place s = record s {
  last = s.last + 1;
  slides = elim place [ none ↦ s.slides ++ x ∷ [] | some p ↦ insert_before p x s.slides ];
}

abbrev pub shortened : ℕ → Slides → Slides
shortened p s = record s { last = s.last - 1; slides = remove_at p s.slides }

unfoldable pub add_slide : ℕ → ℕ → Option ℕ → Slides → Option Slides
unfolding update
add_slide fuel x place s = update fuel place add (inserted x place s)

-- Of a slider with more than one slide.
unfoldable pub remove_slide : ℕ → ℕ → Slides → Option Slides
unfolding update
remove_slide fuel p s = update fuel (some p) remove (shortened p s)
