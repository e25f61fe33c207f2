-- ===== src/Flexslider/Slides/Dots.antt =====
-- The paging of assets/js/jquery.flexslider.js when slides come and go.
use twitter_client_server.Prelude.{
  ℕ, suc, ◌+◌, ◌≡◌, ◌≤◌, Option, none, some, if◌then◌else◌, ◌==◌, length, arith,
}
use twitter_client_server.Flexslider.Slides.{
  add, remove, Slides, paging_count, move_current, change_dots, update,
}

-- One page needs no paging.
abbrev pub dots_for : ℕ → ℕ
dots_for n = if n == 1 then 0 else n

pub record IsWhole (s : Slides) : Type 0 where
  pub counted : length s.slides ≡ s.last + 1
  pub in_range : s.current_slide ≤ s.last
  pub at_rest : s.animating_to ≡ s.current_slide
  pub paged : s.dots ≡ dots_for (paging_count s)

pub update-add :
    (fuel : ℕ) (p : Option ℕ) (s : Slides)
    → s.dots ≡ dots_for s.last
    → 1 ≤ s.last
    → update (suc (suc fuel)) p add s ≡ some (record (move_current p s) { dots = s.last + 1 })
unfolding update change_dots move_current
update-add fuel none s paged some_slide = ground (arith, paged)
update-add fuel (some p) s paged some_slide = ground (arith, paged)

pub update-remove :
    (fuel p : ℕ) (s : Slides)
    → s.dots ≡ s.last + 2
    → update (suc fuel) (some p) remove s
      ≡ some (record (move_current (some p) s) { dots = dots_for (s.last + 1) })
unfolding update change_dots move_current
update-remove fuel p s paged = ground (arith, paged)
