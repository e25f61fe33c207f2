-- ===== src/RefineSlide/Grid.antt =====
-- The grid of an image that many transitions of assets/js/jquery.refineslide.js move: the `setup`
-- of `grid`, which cuts the image into gridlets. Sizes are in whole pixels.
pub mod Columns
pub mod Rows
use twitter_client_server.Prelude.{
  ℕ, zero, suc, ◌+◌, ◌-◌, ◌*◌, ◌/◌, Bool, List, [], ◌∷◌, ◌++◌, if◌then◌else◌, ltb, leb,
}

pub record Gridlet : Type 0 where
  pub width : ℕ
  pub height : ℕ
  pub top : ℕ
  pub left : ℕ
  pub delay : ℕ  -- in units of `count`

-- `Math.ceil( a / b )` for `b` above 0
abbrev pub ceil_div : ℕ → ℕ → ℕ
ceil_div a b = (a + (b - 1)) / b

-- What the code computes before its loops.
pub record Layout : Type 0 where
  pub cols : ℕ
  pub rows : ℕ
  pub col_width : ℕ
  pub row_height : ℕ
  pub col_add : ℕ
  pub row_remainder : ℕ
  pub row_add : ℕ

abbrev pub remainder : ℕ → ℕ → ℕ
remainder size parts = size - parts * (size / parts)

abbrev pub layout : ℕ → ℕ → ℕ → ℕ → Layout
layout cols rows img_width img_height = record {
  cols = cols;
  rows = rows;
  col_width = img_width / cols;
  row_height = img_height / rows;
  col_add = ceil_div (remainder img_width cols) cols;
  row_remainder = remainder img_height rows;
  row_add = ceil_div (remainder img_height rows) rows;
}

-- The inner loop's `newRowHeight`. The remainder is taken anew in every round.
abbrev pub new_row_height : Layout → ℕ
new_row_height g =
    if ltb 0 g.row_remainder
    then g.row_height + (if leb g.row_add g.row_remainder then g.row_add else g.row_remainder)
    else g.row_height

-- The inner loop, with `n` rounds to go from row `j` on.
unfoldable pub row_loop : Layout → ℕ → ℕ → ℕ → ℕ → ℕ → ℕ → List Gridlet
row_loop g i width left zero j top = []
row_loop g i width left (suc n) j top =
    record { width = width; height = new_row_height g; top = top; left = left; delay = i + j }
    ∷ row_loop g i width left n (j + 1) (top + new_row_height g)

-- The outer loop's `add`, what `colRemainder` still has to give.
abbrev pub col_share : Layout → ℕ → ℕ
col_share g rem = if ltb 0 rem then (if leb g.col_add rem then g.col_add else rem) else 0

-- The outer loop, with `n` rounds to go from column `i` on: the columns, each with its gridlets.
unfoldable pub col_loop : Layout → ℕ → ℕ → ℕ → ℕ → List (List Gridlet)
col_loop g zero i left rem = []
col_loop g (suc n) i left rem =
    let width = g.col_width + col_share g rem in
    row_loop g i width left g.rows 0 0 ∷ col_loop g n (i + 1) (left + width) (rem - col_share g rem)

unfoldable pub columns : ℕ → ℕ → ℕ → ℕ → List (List Gridlet)
columns cols rows img_width img_height =
    col_loop (layout cols rows img_width img_height) cols 0 0 (remainder img_width cols)

abbrev pub flatten : List (List Gridlet) → List Gridlet
flatten [] = []
flatten (c ∷ cs) = c ++ flatten cs

-- The children of `$grid`, in the order in which they are appended.
unfoldable pub gridlets : ℕ → ℕ → ℕ → ℕ → List Gridlet
gridlets cols rows img_width img_height = flatten (columns cols rows img_width img_height)
