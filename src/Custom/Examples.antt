-- ===== src/Custom/Examples.antt =====
-- The handlers of assets/js/custom.js at concrete inputs.
use twitter_client_server.Prelude.{ℕ, ◌*◌, ◌≡◌, refl, true, some, List, [], ◌∷◌, All}
use twitter_client_server.Prelude.Text.{codes}
use twitter_client_server.Custom.{
  Link, on_tweets_inview, on_team_inview, menu, on_change, option_of,
}
use twitter_client_server.Custom.Effects.{Hears, tweet_classes, team_classes, run-watch-Hears}
use twitter_client_server.Inview.{Window, css1_compat, Box, watch, run}

abbrev at : ℕ → Window
at y = record {
  inner_height = 600;
  compat_mode = some css1_compat;
  box_model = true;
  root_height = 580;
  body_height = 2000;
  root_scroll_top = y;
  body_scroll_top = 0;
}

abbrev boxes : ℕ → Box
boxes n = record { top = n * 1000; height = 300 }

run-watch-Hears_example :
    All
      (Hears on_tweets_inview tweet_classes)
      (run (watch (0 ∷ 1 ∷ [])) ((at 0, boxes) ∷ (at 900, boxes) ∷ []))
    × All
        (Hears on_team_inview team_classes)
        (run (watch (0 ∷ 1 ∷ [])) ((at 0, boxes) ∷ (at 900, boxes) ∷ []))
run-watch-Hears_example = run-watch-Hears (0 ∷ 1 ∷ []) ((at 0, boxes) ∷ (at 900, boxes) ∷ [])

abbrev links : List Link
links =
    record { parents = 9; href = codes "index.html"; text = codes "Home" }
    ∷ record { parents = 11; href = codes "feed.html"; text = codes "Feed" }
    ∷ []

second_option : on_change 2 (menu links) ≡ some (codes "feed.html")
unfolding on_change menu option_of
second_option = refl
