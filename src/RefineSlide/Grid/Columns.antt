-- ===== src/RefineSlide/Grid/Columns.antt =====
-- The columns of the grid of assets/js/jquery.refineslide.js cover the width of the image.
use twitter_client_server.Prelude.{
  ℕ, zero, suc, ◌+◌, ◌-◌, ◌*◌, ◌/◌, ◌≤◌, ◌<◌, ◌≡◌, refl, List, [], ◌∷◌, arith, ◌⊎◌,
}
use twitter_client_server.RefineSlide.Grid.{
  Gridlet, Layout, layout, remainder, ceil_div, col_share, row_loop, col_loop, columns,
}

-- The column begins at `left` and is `width` wide.
abbrev pub Stands : ℕ → ℕ → List Gridlet → Type 0
Stands left width [] = Unit {0}
Stands left width (b ∷ bs) = (b.left ≡ left) × (b.width ≡ width) × Stands left width bs

-- The columns stand side by side from `left` to `right`, and each is `w` or `w + 1` wide.
pub data Tiles (w : ℕ) : ℕ → ℕ → List (List Gridlet) → Type 0 where
  done : {left right : ℕ} → left ≡ right → Tiles w left right []
  column :
      {left right : ℕ} {c : List Gridlet} {cs : List (List Gridlet)} (width : ℕ)
      → (width ≡ w) ⊎ (width ≡ w + 1)
      → Stands left width c
      → Tiles w (left + width) right cs
      → Tiles w left right (c ∷ cs)

Stands-row_loop :
    (g : Layout) (i width left n j top : ℕ) → Stands left width (row_loop g i width left n j top)
unfolding row_loop
Stands-row_loop g i width left zero j top = tt
Stands-row_loop g i width left (suc n) j top =
    (refl, refl, Stands-row_loop g i width left n (j + 1) (top + _))

-- At most one pixel is added to a column, and none once the remainder is used up.
Tiles-col_loop :
    (g : Layout) (n i left rem right : ℕ)
    → g.col_add ≤ 1
    → (0 < rem → g.col_add ≡ 1)
    → rem ≤ n
    → left + n * g.col_width + rem ≡ right
    → Tiles g.col_width left right (col_loop g n i left rem)
unfolding col_loop
Tiles-col_loop g zero i left rem right a b h e = done (omega arith)
Tiles-col_loop g (suc n) i left rem right a b h e =
    column (g.col_width + col_share g rem) (ground arith)
      (Stands-row_loop g i (g.col_width + col_share g rem) left g.rows 0 0)
      (Tiles-col_loop g n (i + 1) (left + (g.col_width + col_share g rem)) (rem - col_share g rem)
        right a (λ p. b (omega arith)) (ground arith) (ground arith))

pub remainder-lt : (size parts : ℕ) → 0 < parts → remainder size parts < parts
remainder-lt size parts h = omega arith

pub ceil_one : (r n : ℕ) → r < n → 0 < r → ceil_div r n ≡ 1
ceil_one r n h p = grind arith

ceil-le_one : (r n : ℕ) → r < n → ceil_div r n ≤ 1
ceil-le_one r n h = grind arith

-- The columns of the grid cover the image from its left to its right edge without a gap or an
-- overlap, and their widths differ by a pixel at most: for every image and every number of columns
-- above 0.
pub columns-Tiles :
    (cols rows img_width img_height : ℕ)
    → 0 < cols
    → Tiles (img_width / cols) 0 img_width (columns cols rows img_width img_height)
unfolding columns
columns-Tiles cols rows img_width img_height h =
    let p = remainder-lt img_width cols h in
    Tiles-col_loop (layout cols rows img_width img_height) cols 0 0 (remainder img_width cols)
      img_width (ceil-le_one _ cols p) (ceil_one _ cols p) (omega arith) (omega arith)
