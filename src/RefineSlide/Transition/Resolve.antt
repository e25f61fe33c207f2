-- ===== src/RefineSlide/Transition/Resolve.antt =====
-- Every transition of assets/js/jquery.refineslide.js comes down to an animation that the browser
-- can show, unless the fallback of the cubes is a cube.
use twitter_client_server.Prelude.{
  ℕ, zero, suc, ◌*◌, ◌/◌, ◌<◌, ◌≡◌, ◌≢◌, refl, ◌⊎◌, Bool, true, false, Option, none, some, arith,
  get_elem?, All, get_elem?-All,
}
use twitter_client_server.RefineSlide.Transition.{
  Name, cube_h, cube_v, random, anims, random_index, Plan, fade_css, fade_js, cube, grid, Env,
  lacks_cube, plan,
}
use native.Mathlib.Nat.{div-lt_iff_lt-mul}

-- The browser can show the animation, and reports its end.
abbrev pub Shows : Env → Plan → Type 0
Shows e fade_css = e.css_transitions ≡ true
Shows e fade_js = e.css_transitions ≡ false
Shows e (cube tz ntx nty nrx nry wrx wry) = (e.css_transitions ≡ true) × (e.css_transforms3d ≡ true)
Shows e (grid cols rows ro tx ty sc op) = e.css_transitions ≡ true

-- A transition that calls no other by a setting or by chance.
abbrev pub is_plain : Name → Bool
is_plain cube_h = false
is_plain cube_v = false
is_plain random = false
is_plain _ = true

abbrev pub ShowsSome : Env → Option Plan → Type 0
ShowsSome e none = ⊥
ShowsSome e (some p) = Shows e p

plain-ShowsSome :
    (fuel : ℕ) (e : Env) (name : Name) → is_plain name ≡ true → ShowsSome e (plan (suc fuel) e name)
unfolding plan
plain-ShowsSome fuel e name h = ground arith

Name-discrete : Discrete Name
Name-discrete = hlevel

cube-ShowsSome :
    (fuel : ℕ) (e : Env) (name : Name)
    → is_plain e.fallback3d ≡ true
    → name ≢ random
    → ShowsSome e (plan (suc (suc fuel)) e name)
unfolding plan
cube-ShowsSome fuel e name h r = ground (arith, plain-ShowsSome fuel e e.fallback3d h)

-- With a fallback for the cubes that is neither a cube nor `random`, every transition, a random one
-- too if it does not draw `random` itself, comes down within three calls to an animation that the
-- browser can show.
pub plan-ShowsSome :
    (fuel : ℕ) (e : Env) (name : Name)
    → is_plain e.fallback3d ≡ true
    → e.pick ≢ random
    → ShowsSome e (plan (suc (suc (suc fuel))) e name)
unfolding plan
plan-ShowsSome fuel e name h r = elim (Name-discrete name random) [
  | yes p ↦ rw p (cube-ShowsSome fuel e e.pick h r)
  | no q ↦ cube-ShowsSome (suc fuel) e name h q
]

-- With a cube as the fallback and no 3D transforms, a cube calls itself without end.
pub cube_diverges :
    (fuel : ℕ) (e : Env) (name : Name)
    → lacks_cube e ≡ true
    → (e.fallback3d ≡ cube_h) ⊎ (e.fallback3d ≡ cube_v)
    → (name ≡ cube_h) ⊎ (name ≡ cube_v)
    → plan fuel e name ≡ none
unfolding plan
cube_diverges zero e name l f n = refl
cube_diverges (suc fuel) e name l f n = ground (arith, cube_diverges fuel e e.fallback3d l f f)

anims-ne_random : All (λ name. name ≢ random) anims
anims-ne_random = ground arith

-- Whatever number below 1 the browser draws, `random` calls a transition of the list, and none
-- of the list is `random`.
pub random-anims :
    (n d : ℕ)
    → n < d
    → (name : Name) × (get_elem? anims (random_index n d) ≡ some name) × (name ≢ random)
unfolding random_index
random-anims n d h =
    get_elem?-All anims (n * 13 / d) anims-ne_random
      ((div-lt_iff_lt-mul (omega arith)).1 (omega arith))
