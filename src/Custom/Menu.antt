-- ===== src/Custom/Menu.antt =====
-- The menu of a narrow screen in assets/js/custom.js against the links of the page.
use twitter_client_server.Prelude.{ℕ, zero, suc, ◌≡◌, refl, Option, none, some, List, [], ◌∷◌, map}
use twitter_client_server.Prelude.Text.{Text}
use twitter_client_server.Custom.{Link, option_of, menu, on_change}

unfoldable pub nth_href : ℕ → List Link → Option Text
nth_href n [] = none
nth_href zero (l ∷ ls) = some l.href
nth_href (suc n) (l ∷ ls) = nth_href n ls

options-href : (n : ℕ) (ls : List Link) → on_change n (map option_of ls) ≡ nth_href n ls
unfolding on_change option_of nth_href
options-href n [] = refl
options-href zero (l ∷ ls) = refl
options-href (suc n) (l ∷ ls) = options-href n ls

-- The choice of an option behind the first leads where the link of that place leads, and there is an
-- option for each link and no more.
pub on_change-menu : (n : ℕ) (ls : List Link) → on_change (suc n) (menu ls) ≡ nth_href n ls
unfolding on_change menu
on_change-menu n ls = options-href n ls
