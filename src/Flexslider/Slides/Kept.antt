-- ===== src/Flexslider/Slides/Kept.antt =====
-- What `addSlide` and `removeSlide` of assets/js/jquery.flexslider.js leave behind.
use twitter_client_server.Prelude.{
  ℕ, suc, ◌+◌, ◌-◌, ◌≡◌, ◌≢◌, ◌≤◌, ◌<◌, refl, Option, none, some, [], ◌∷◌, ◌++◌, length,
  length-append, get_elem?, arith, ◌∙◌, ap,
}
use twitter_client_server.Flexslider.Slides.{
  Slides, insert_before, remove_at, inserted, shortened, move_current, add_slide, remove_slide,
}
use twitter_client_server.Flexslider.Slides.Dots.{IsWhole, dots_for, update-add, update-remove}
use twitter_client_server.Flexslider.Slides.Places.{
  length-insert_before, length-remove_at, get_elem?-append, get_elem?-remaining, get_elem?-moved_up,
  moved, moved_before, moved_behind, get_elem?-at, get_elem?-moved,
}

abbrev pub shown : Slides → Option ℕ
shown s = get_elem? s.slides s.current_slide

-- A place that there is.
abbrev pub IsPlace : Option ℕ → Slides → Type 0
IsPlace none s = Unit
IsPlace (some p) s = p < length s.slides

-- The slider is in order, and shows what the one before showed, if `same` is so.
pub record Follows (same : Type 0) (s : Slides) (t : Option Slides) : Type 0 where
  pub result : Slides
  pub reached : t ≡ some result
  pub whole : IsWhole result
  pub kept : same → shown result ≡ shown s

pub record MovesOn (s : Slides) (t : Option Slides) : Type 0 where
  pub result : Slides
  pub reached : t ≡ some result
  pub moved_on : shown result ≡ get_elem? s.slides (s.current_slide + 2)

add_at_end-Follows :
    (fuel x : ℕ) (s : Slides)
    → IsWhole s
    → Follows (none ≢ some s.current_slide) s (add_slide (suc (suc fuel)) x none s)
unfolding add_slide move_current
add_at_end-Follows fuel x s k = record {
  result = record s {
    slides = s.slides ++ x ∷ [];
    last = s.last + 1;
    animating_to = s.current_slide;
    dots = s.last + 1 + 1;
  };
  reached = update-add fuel none (inserted x none s) k.paged (omega arith);
  whole = record {
    counted = omega (arith, length-append s.slides (x ∷ []), k.counted);
    in_range = omega (arith, k.in_range);
    at_rest = refl;
    paged = ground arith;
  };
  kept = λ _. get_elem?-append s.current_slide x s.slides (omega (arith, k.counted, k.in_range));
}

add_at-Follows :
    (fuel x p : ℕ) (s : Slides)
    → IsWhole s
    → p < length s.slides
    → Follows (some p ≢ some s.current_slide) s (add_slide (suc (suc fuel)) x (some p) s)
unfolding add_slide move_current
add_at-Follows fuel x p s k h = record {
  result = record s {
    slides = insert_before p x s.slides;
    last = s.last + 1;
    current_slide = moved p s.current_slide;
    animating_to = moved p s.current_slide;
    dots = s.last + 1 + 1;
  };
  reached = update-add fuel (some p) (inserted x (some p) s) k.paged (omega arith);
  whole = record {
    counted = omega (arith, length-insert_before p x s.slides h, k.counted);
    in_range = ground (arith, k.in_range);
    at_rest = refl;
    paged = ground arith;
  };
  kept = λ n. get_elem?-moved p s.current_slide x s.slides h (λ e. n (ap some e));
}

-- A slide that is removed from a slider in order with more than one, and not before the current one,
-- leaves it in order, in one round of `update`; the current slide is the one that it was, unless it
-- was removed.
pub remove_slide-Follows :
    (fuel p : ℕ) (s : Slides)
    → IsWhole s
    → 1 ≤ s.last
    → s.current_slide ≤ p
    → p < length s.slides
    → Follows (p ≢ s.current_slide) s (remove_slide (suc fuel) p s)
unfolding remove_slide move_current
remove_slide-Follows fuel p s k some_left behind h = record {
  result = record s {
    slides = remove_at p s.slides;
    last = s.last - 1;
    current_slide = moved p s.current_slide;
    animating_to = moved p s.current_slide;
    dots = dots_for (s.last - 1 + 1);
  };
  reached = update-remove fuel p (shortened p s) (ground (arith, k.paged, some_left));
  whole = record {
    counted = omega (arith, length-remove_at p s.slides h, k.counted);
    in_range = ground (arith, k.in_range, k.counted, h, behind);
    at_rest = refl;
    paged = refl;
  };
  kept = λ n.
      get_elem?-at (remove_at p s.slides)
        (moved_behind p s.current_slide (omega (arith, behind, n)))
      ∙ get_elem?-remaining s.current_slide p s.slides (omega (arith, behind, n));
}

-- A slide that is added, at the end or before one that there is, leaves a slider in order as it should be: two
-- rounds of `update` are enough, the paging has a link for each slide, and the current slide is one of
-- the slides. It is the slide that it was, unless the new one comes just before it.
pub add_slide-Follows :
    (fuel x : ℕ) (place : Option ℕ) (s : Slides)
    → IsWhole s
    → IsPlace place s
    → Follows (place ≢ some s.current_slide) s (add_slide (suc (suc fuel)) x place s)
add_slide-Follows fuel x none s k h = add_at_end-Follows fuel x s k
add_slide-Follows fuel x (some p) s k h = add_at-Follows fuel x p s k h

-- A slide that is removed before the current one takes the slider two slides on: what it then shows is
-- the slide that stood two places behind the current one, if there is one.
pub remove_slide-before :
    (fuel p : ℕ) (s : Slides)
    → IsWhole s
    → p < s.current_slide
    → MovesOn s (remove_slide (suc fuel) p s)
unfolding remove_slide move_current
remove_slide-before fuel p s k h = record {
  result = record s {
    slides = remove_at p s.slides;
    last = s.last - 1;
    current_slide = moved p s.current_slide;
    animating_to = moved p s.current_slide;
    dots = dots_for (s.last - 1 + 1);
  };
  reached = update-remove fuel p (shortened p s) (ground (arith, k.paged, k.in_range, h));
  moved_on =
      get_elem?-at (remove_at p s.slides) (moved_before p s.current_slide h)
      ∙ get_elem?-moved_up (suc s.current_slide) p s.slides (omega (arith, h))
      ∙ get_elem?-at s.slides (omega arith);
}
