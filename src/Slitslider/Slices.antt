-- ===== src/Slitslider/Slices.antt =====
-- What `_validateValues` of assets/js/jquery.slitslider.js makes of the data of a slide.
use twitter_client_server.Prelude.{◌<◌, ◌≡◌, ◌≢◌, arith}
use twitter_client_server.Prelude.Int.{pos, neg, neg_parts, ◌≤ℤ◌}
use twitter_client_server.Slitslider.{Options, SlideData, Config, config_of, other, validate_values}

-- Angles and scales within the options' limits.
pub record IsValid (o : Options) (c : Config) : Type 0 where
  pub angle1 : (neg o.max_angle ≤ℤ c.slice1angle) × (c.slice1angle ≤ℤ pos o.max_angle)
  pub angle2 : (neg o.max_angle ≤ℤ c.slice2angle) × (c.slice2angle ≤ℤ pos o.max_angle)
  pub scale1 : (pos 1 ≤ℤ c.slice1scale) × (c.slice1scale ≤ℤ pos o.max_scale)
  pub scale2 : (pos 1 ≤ℤ c.slice2scale) × (c.slice2scale ≤ℤ pos o.max_scale)
  pub orientation : c.orientation ≢ other

-- Whatever a slide says of its slices, the values that are used lie within the limits, if
-- the largest scale is not 0.
pub validate_values-IsValid :
    (o : Options) (d : SlideData) → 0 < o.max_scale → IsValid o (validate_values o (config_of d))
unfolding validate_values
validate_values-IsValid o d h = ground (arith, neg_parts o.max_angle)

-- Values within the limits are left as they are.
pub validate_values_of_IsValid : (o : Options) (c : Config) → IsValid o c → validate_values o c ≡ c
unfolding validate_values
validate_values_of_IsValid o c v = ground (arith, neg_parts o.max_angle)
