-- ===== src/Flexslider/Carousel/Pages.antt =====
-- The pages of a carousel of assets/js/jquery.flexslider.js.
use twitter_client_server.Prelude.{
  ℕ, ◌+◌, ◌*◌, ◌≤◌, ◌<◌, ◌≡◌, refl, none, some, if◌then◌else◌, ltb, ◌&&◌, arith,
}
use twitter_client_server.Prelude.Int.{pos}
use twitter_client_server.Flexslider.Carousel.{Sizes, move_of, paging_count}

-- The pages are those from 0 to `last`, each `move_of` items behind the one before: the last one
-- reaches the last item, and the one before it does not.
pub record Covers (d : Sizes) : Type 0 where
  pub last : ℕ
  pub paged : paging_count d ≡ some (pos (last + 1))
  pub reaches : d.count ≤ last * move_of d + d.visible
  pub needed : last * move_of d + d.visible < d.count + move_of d

no_less : (n : ℕ) → (if ltb 0 n && ltb n 0 then n else 0) ≡ 0
no_less n = ground arith

move_of_none : (d : Sizes) → d.visible ≡ 0 → move_of d ≡ 0
unfolding move_of
move_of_none d e = rw e (no_less d.move)

no_move-paging_count : (d : Sizes) → move_of d ≡ 0 → paging_count d ≡ none
unfolding paging_count
no_move-paging_count d e = rw e refl

-- A carousel that finds no item d.visibleivides by 0 for its number of pages.
pub pages_infinite : (d : Sizes) → d.visible ≡ 0 → paging_count d ≡ none
pages_infinite d e = no_move-paging_count d (move_of_none d e)
