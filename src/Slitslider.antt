-- ===== src/Slitslider.antt =====
-- The slider assets/js/jquery.slitslider.js of the client, which cuts a slide in two: its options,
-- the data of its slides, and the style of the two slices.
pub mod Slices
pub mod Plugin
pub mod Slider
pub mod Examples
use twitter_client_server.Prelude.{
  ℕ, Bool, true, false, ◌||◌, ◌&&◌, Option, none, some, List, [], ◌∷◌, if◌then◌else◌, ◌==◌,
}
use twitter_client_server.Prelude.Int.{ℤ, pos, negsuc, neg, ltb_ℤ, leb_ℤ, eqb_ℤ}
use mathlib.Core.Option.{get_or}

-- Angles are in degrees, scales in hundredths, times in milliseconds.
pub record Options : Type 0 where
  pub speed : ℕ
  pub opt_opacity : Bool
  pub translate_factor : ℕ
  pub max_angle : ℕ
  pub max_scale : ℕ
  pub autoplay : Bool
  pub keyboard : Bool
  pub interval : ℕ

pub record Overrides : Type 0 where
  pub speed : Option ℕ
  pub opt_opacity : Option Bool
  pub translate_factor : Option ℕ
  pub max_angle : Option ℕ
  pub max_scale : Option ℕ
  pub autoplay : Option Bool
  pub keyboard : Option Bool
  pub interval : Option ℕ

abbrev pub defaults : Options
defaults = record {
  speed = 800;
  opt_opacity = false;
  translate_factor = 230;
  max_angle = 25;
  max_scale = 200;
  autoplay = false;
  keyboard = true;
  interval = 4000;
}

-- `$.extend( true, {}, $.Slitslider.defaults, options )`
abbrev pub extend : Overrides → Options
extend o = record {
  speed = get_or o.speed defaults.speed;
  opt_opacity = get_or o.opt_opacity defaults.opt_opacity;
  translate_factor = get_or o.translate_factor defaults.translate_factor;
  max_angle = get_or o.max_angle defaults.max_angle;
  max_scale = get_or o.max_scale defaults.max_scale;
  autoplay = get_or o.autoplay defaults.autoplay;
  keyboard = get_or o.keyboard defaults.keyboard;
  interval = get_or o.interval defaults.interval;
}

-- `other` is any other text.
pub data Orientation : Type 0 where
  horizontal vertical other : Orientation

-- The data attributes of a slide.
pub record SlideData : Type 0 where
  pub orientation : Option Orientation
  pub slice1_rotation : Option ℤ
  pub slice1_scale : Option ℤ
  pub slice2_rotation : Option ℤ
  pub slice2_scale : Option ℤ

pub record Config : Type 0 where
  pub orientation : Orientation
  pub slice1angle : ℤ
  pub slice1scale : ℤ
  pub slice2angle : ℤ
  pub slice2scale : ℤ

-- `x || d` on numbers: 0 counts as missing.
abbrev or_default : Option ℤ → ℤ → ℤ
or_default none d = d
or_default (some x) d = if eqb_ℤ x (pos 0) then d else x

unfoldable pub config_of : SlideData → Config
config_of c = record {
  orientation = get_or c.orientation horizontal;
  slice1angle = or_default c.slice1_rotation (pos 0);
  slice1scale = or_default c.slice1_scale (pos 100);
  slice2angle = or_default c.slice2_rotation (pos 0);
  slice2scale = or_default c.slice2_scale (pos 100);
}

abbrev bad_angle : Options → ℤ → Bool
bad_angle o a = ltb_ℤ (pos o.max_angle) a || ltb_ℤ a (neg o.max_angle)

abbrev valid_angle : Options → ℤ → ℤ
valid_angle o a = if bad_angle o a then pos o.max_angle else a

abbrev bad_scale : Options → ℤ → Bool
bad_scale o x = ltb_ℤ (pos o.max_scale) x || leb_ℤ x (pos 0)

abbrev valid_scale : Options → ℤ → ℤ
valid_scale o x = if bad_scale o x then pos o.max_scale else x

abbrev valid_orientation : Orientation → Orientation
valid_orientation other = horizontal
valid_orientation d = d

-- `_validateValues`, which changes `config` in place.
unfoldable pub validate_values : Options → Config → Config
validate_values o c = record {
  slice1angle = valid_angle o c.slice1angle;
  slice2angle = valid_angle o c.slice2angle;
  slice1scale = valid_scale o c.slice1scale;
  slice2scale = valid_scale o c.slice2scale;
  orientation = valid_orientation c.orientation;
}

-- A slice's style: where it is moved along its axis, in percent, or how it lies at rest.
pub data Style : Type 0 where
  moved_style : Orientation → ℤ → ℤ → ℤ → Option ℕ → Style
  reset_style : Style

abbrev opacity_of : Options → Option ℕ
opacity_of o = if o.opt_opacity then some 0 else none

unfoldable pub slice1_style : Options → Config → Style
slice1_style o c =
    moved_style c.orientation (neg o.translate_factor) c.slice1angle c.slice1scale (opacity_of o)

unfoldable pub slice2_style : Options → Config → Style
slice2_style o c =
    moved_style c.orientation (pos o.translate_factor) c.slice2angle c.slice2scale (opacity_of o)
