-- ===== src/Flexslider/Carousel.antt =====
-- The pages of a carousel, of `doMath` in assets/js/jquery.flexslider.js. The number of items that are
-- visible, which the code gets from a division of floating-point widths, is an argument.
pub mod Pages
use twitter_client_server.Prelude.{
  ℕ, ◌+◌, ◌-◌, ◌*◌, ◌/◌, Bool, true, false, ◌&&◌, Option, none, some, if◌then◌else◌, ◌==◌, ltb, leb,
}
use twitter_client_server.Prelude.Int.{ℤ, pos, neg, pos_part, sub_ℕ, ◌+ℤ◌, ◌-ℤ◌, ◌*ℤ◌, eqb_ℤ}

-- `visible` and `count` are fields of the slider, `move` is the option.
pub record Sizes : Type 0 where
  pub visible : ℕ
  pub move : ℕ
  pub count : ℕ

unfoldable pub move_of : Sizes → ℕ
move_of d = if ltb 0 d.move && ltb d.move d.visible then d.move else d.visible

abbrev pub ceil_div : ℕ → ℕ → ℕ
ceil_div a b = (a + (b - 1)) / b

-- `Math.ceil((count - visible) / move + 1)`, none where that divides by 0.
unfoldable pub paging_count : Sizes → Option ℤ
unfolding move_of
paging_count d =
    if move_of d == 0
    then none
    else if leb d.visible (d.count + move_of d)
    then some (pos (ceil_div (d.count + move_of d - d.visible) (move_of d)))
    else some (neg ((d.visible - (d.count + move_of d)) / move_of d))
