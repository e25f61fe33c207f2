-- ===== src/RefineSlide/Grid/Rows.antt =====
-- The rows of the grid of assets/js/jquery.refineslide.js, and how far they reach.
use twitter_client_server.Prelude.{
  ℕ, zero, suc, ◌+◌, ◌-◌, ◌*◌, ◌%◌, ◌<◌, ◌≡◌, refl, List, [], ◌∷◌, if◌then◌else◌, ltb, arith,
  length, length-append,
}
use twitter_client_server.RefineSlide.Grid.{
  Gridlet, Layout, layout, remainder, new_row_height, col_share, row_loop, col_loop, columns,
  flatten, gridlets,
}
use twitter_client_server.RefineSlide.Grid.Columns.{ceil_one, remainder-lt}

-- The gridlets stand one below the other from `top` to `bottom`.
abbrev pub Stacked : ℕ → ℕ → List Gridlet → Type 0
Stacked top bottom [] = top ≡ bottom
Stacked top bottom (b ∷ bs) = (b.top ≡ top) × Stacked (top + b.height) bottom bs

abbrev pub AllStacked : ℕ → List (List Gridlet) → Type 0
AllStacked bottom [] = Unit
AllStacked bottom (c ∷ cs) = Stacked 0 bottom c × AllStacked bottom cs

-- Where the rows end: at the bottom of the image if it divides evenly, and otherwise as many pixels
-- below it as the remainder leaves open.
abbrev pub rows_end : ℕ → ℕ → ℕ
rows_end rows img_height =
    if ltb 0 (img_height % rows) then img_height + (rows - img_height % rows) else img_height

Stacked-row_loop :
    (g : Layout) (i width left n j top bottom : ℕ)
    → top + n * new_row_height g ≡ bottom
    → Stacked top bottom (row_loop g i width left n j top)
unfolding row_loop
Stacked-row_loop g i width left zero j top bottom e = omega arith
Stacked-row_loop g i width left (suc n) j top bottom e =
    (refl, Stacked-row_loop g i width left n (j + 1) (top + new_row_height g) bottom (omega arith))

AllStacked-col_loop :
    (g : Layout) (n i left rem bottom : ℕ)
    → g.rows * new_row_height g ≡ bottom
    → AllStacked bottom (col_loop g n i left rem)
unfolding col_loop
AllStacked-col_loop g zero i left rem bottom e = tt
AllStacked-col_loop g (suc n) i left rem bottom e = (
  Stacked-row_loop g i (g.col_width + col_share g rem) left g.rows 0 0 bottom (omega arith),
  AllStacked-col_loop g n (i + 1) (left + (g.col_width + col_share g rem)) (rem - col_share g rem)
      bottom e,
)

rows-new_row_height :
    (cols rows img_width img_height : ℕ)
    → 0 < rows
    → rows * new_row_height (layout cols rows img_width img_height) ≡ rows_end rows img_height
rows-new_row_height cols rows img_width img_height h =
    let p = remainder-lt img_height rows h in
    grind (arith, ceil_one (remainder img_height rows) rows p)

-- In every column the gridlets stand one below the other from the top of the image on, and they
-- end at `rows_end`: at its bottom if `rows` divides the height, and below it if not. That holds for
-- every image and every number of rows above 0.
pub columns-AllStacked :
    (cols rows img_width img_height : ℕ)
    → 0 < rows
    → AllStacked (rows_end rows img_height) (columns cols rows img_width img_height)
unfolding columns
columns-AllStacked cols rows img_width img_height h =
    AllStacked-col_loop (layout cols rows img_width img_height) cols 0 0 (remainder img_width cols)
      _ (rows-new_row_height cols rows img_width img_height h)

length-row_loop :
    (g : Layout) (i width left n j top : ℕ) → length (row_loop g i width left n j top) ≡ n
unfolding row_loop
length-row_loop g i width left zero j top = refl
length-row_loop g i width left (suc n) j top =
    omega (arith, length-row_loop g i width left n (j + 1) (top + new_row_height g))

length-flatten-col_loop :
    (g : Layout) (n i left rem : ℕ) → length (flatten (col_loop g n i left rem)) ≡ n * g.rows
unfolding col_loop
length-flatten-col_loop g zero i left rem = omega arith
length-flatten-col_loop g (suc n) i left rem =
    let width = g.col_width + col_share g rem in
    let rest = col_loop g n (i + 1) (left + width) (rem - col_share g rem) in
    omega (
      arith,
      length-append (row_loop g i width left g.rows 0 0) (flatten rest),
      length-row_loop g i width left g.rows 0 0,
      length-flatten-col_loop g n (i + 1) (left + width) (rem - col_share g rem),
    )

-- The grid has one gridlet for each column and row.
pub length-gridlets :
    (cols rows img_width img_height : ℕ)
    → length (gridlets cols rows img_width img_height) ≡ cols * rows
unfolding gridlets columns
length-gridlets cols rows img_width img_height =
    length-flatten-col_loop (layout cols rows img_width img_height) cols 0 0
      (remainder img_width cols)
