-- ===== src/RefineSlide/Transition.antt =====
-- Which animation a transition of assets/js/jquery.refineslide.js turns out to be, in a browser
-- with or without CSS transitions and 3D transforms: `cube`, `grid`, `fade` and their callers.
pub mod Resolve
use twitter_client_server.Prelude.{
  ℕ, zero, suc, ◌*◌, ◌/◌, Bool, true, false, not, ◌||◌, Option, none, some, List, [], ◌∷◌,
  if◌then◌else◌, get_elem?,
}
use twitter_client_server.Prelude.Int.{ℤ, pos, negsuc, neg}

pub data Name : Type 0 where
  cube_h cube_v fade slice_h slice_v slide_h slide_v scale block_scale kaleidoscope : Name
  fan blind_h blind_v random : Name

abbrev pub anims : List Name
anims =
    cube_h ∷ cube_v ∷ fade ∷ slice_h ∷ slice_v ∷ slide_h ∷ slide_v ∷ scale ∷ block_scale
    ∷ kaleidoscope ∷ fan ∷ blind_h ∷ blind_v ∷ []

-- `Math.floor( Math.random() * this.anims.length )`, where the random number is `n / d`.
unfoldable pub random_index : ℕ → ℕ → ℕ
random_index n d = n * 13 / d

-- The arguments `tx` and `ty` of `grid`.
pub data Offset : Type 0 where
  px : ℕ → Offset
  auto min_auto : Offset

-- What is done to the slides. Lengths of a cube are in half pixels, angles in degrees, and the
-- scale is in tenths.
pub data Plan : Type 0 where
  fade_css fade_js : Plan
  cube : ℤ → ℤ → ℤ → ℤ → ℤ → ℤ → ℤ → Plan
  grid : ℕ → ℕ → ℕ → Offset → Offset → ℕ → ℕ → Plan

-- What a transition reads of its slider, of the browser and of the chance.
pub record Env : Type 0 where
  pub css_transitions : Bool
  pub css_transforms3d : Bool
  pub fallback3d : Name
  pub forward : Bool
  pub slide_width : ℕ
  pub slide_height : ℕ
  pub pick : Name  -- what `random` draws from `anims`

abbrev pub fade_plan : Env → Plan
fade_plan e = if e.css_transitions then fade_css else fade_js

-- `grid`, whose fallback is `fade`.
abbrev grid_plan : Env → Plan → Plan
grid_plan e p = if not e.css_transitions then fade_plan e else p

abbrev pub lacks_cube : Env → Bool
lacks_cube e = not e.css_transitions || not e.css_transforms3d

abbrev cube_h_plan : Bool → ℕ → Plan
cube_h_plan true d = cube (pos d) (pos d) (pos 0) (pos 0) (pos 90) (pos 0) (neg 90)
cube_h_plan false d = cube (pos d) (neg d) (pos 0) (pos 0) (neg 90) (pos 0) (pos 90)

abbrev cube_v_plan : Bool → ℕ → Plan
cube_v_plan true d = cube (pos d) (pos 0) (neg d) (pos 90) (pos 0) (neg 90) (pos 0)
cube_v_plan false d = cube (pos d) (pos 0) (pos d) (neg 90) (pos 0) (pos 90) (pos 0)

-- The methods call one another by name; `none` means that more than `fuel` calls are needed.
unfoldable pub plan : ℕ → Env → Name → Option Plan
plan zero e name = none
plan (suc fuel) e cube_h =
    let rest = plan fuel e e.fallback3d in
    if lacks_cube e then rest else some (cube_h_plan e.forward e.slide_width)
plan (suc fuel) e cube_v =
    let rest = plan fuel e e.fallback3d in
    if lacks_cube e then rest else some (cube_v_plan e.forward e.slide_height)
plan (suc fuel) e fade = some (fade_plan e)
plan (suc fuel) e slice_h = some (grid_plan e (grid 1 8 0 min_auto (px 0) 10 0))
plan (suc fuel) e slice_v = some (grid_plan e (grid 10 1 0 (px 0) auto 10 0))
plan (suc fuel) e slide_v = some (grid_plan e (grid 1 1 0 (px 0) auto 10 1))
plan (suc fuel) e slide_h = some (grid_plan e (grid 1 1 0 min_auto (px 0) 10 1))
plan (suc fuel) e scale = some (grid_plan e (grid 1 1 0 (px 0) (px 0) 15 0))
plan (suc fuel) e block_scale = some (grid_plan e (grid 8 6 0 (px 0) (px 0) 6 0))
plan (suc fuel) e kaleidoscope = some (grid_plan e (grid 10 8 0 (px 0) (px 0) 10 0))
plan (suc fuel) e fan = some (grid_plan e (grid 1 10 45 (px 100) (px 0) 10 0))
plan (suc fuel) e blind_v = some (grid_plan e (grid 1 8 0 (px 0) (px 0) 7 0))
plan (suc fuel) e blind_h = some (grid_plan e (grid 10 1 0 (px 0) (px 0) 7 0))
plan (suc fuel) e random = plan fuel e e.pick
