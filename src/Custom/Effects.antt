-- ===== src/Custom/Effects.antt =====
-- What the handlers of `inview` in assets/js/custom.js show, together with the events of
-- assets/js/jquery.inview.js.
use twitter_client_server.Prelude.{
  ℕ, ◌≡◌, refl, Bool, true, false, not, List, [], ◌∷◌, if◌then◌else◌, All, ap, ◌∙◌, sym,
}
use twitter_client_server.Custom.{
  Class, animated, bounce_in_left, bounce_in, remove_class, add_class, has_class, on_tweets_inview,
  on_team_inview, hear,
}
use twitter_client_server.Inview.{Window, Watched, Box, watch, run}
use twitter_client_server.Inview.Triggers.{InTurn, IsInTurn, run-watch-AllInTurn}

abbrev pub tweet_classes : Bool → List Class
tweet_classes v = if v then animated ∷ bounce_in_left ∷ [] else []

abbrev pub team_classes : Bool → List Class
team_classes v = if v then animated ∷ bounce_in ∷ [] else []

abbrev pub Hears : (Bool → List Class → List Class) → (Bool → List Class) → Watched → Type 0
Hears handler classes e = hear handler e.triggered ≡ classes e.inview

-- A handler that takes the classes of an element that is out of the window to those of one in it,
-- and back.
module _ (handler : Bool → List Class → List Class) (classes : Bool → List Class)
    (turn : (v : Bool) → handler v (classes (not v)) ≡ classes v) (bare : classes false ≡ []) where
  hear_lem : (v : Bool) (vs : List Bool) → InTurn v vs → hear handler vs ≡ classes v
  unfolding hear
  hear_lem v [] e = sym bare ∙ ap classes (sym e)
  hear_lem v (x ∷ vs) h =
      ap (λ c. handler x c) (hear_lem (not v) vs h.1)
      ∙ ap (λ y. handler y (classes (not v))) h.0
      ∙ turn v

  hears : (es : List Watched) → All IsInTurn es → All (Hears handler classes) es
  hears [] h = tt
  hears (e ∷ es) h = (hear_lem e.inview e.triggered h.0, hears es h.1)

turn_tweets : (v : Bool) → on_tweets_inview v (tweet_classes (not v)) ≡ tweet_classes v
unfolding on_tweets_inview remove_class add_class has_class
turn_tweets true = refl
turn_tweets false = refl

turn_team : (v : Bool) → on_team_inview v (team_classes (not v)) ≡ team_classes v
unfolding on_team_inview remove_class add_class has_class
turn_team true = refl
turn_team false = refl

-- Whatever is scrolled and however the page is laid out meanwhile, the tweets bear the classes of
-- their animation exactly while the data of the element whose events their handler hears say that it
-- is in the window, and so do the items of the team.
pub run-watch-Hears :
    (ns : List ℕ) (l : List (Window × (ℕ → Box)))
    → All (Hears on_tweets_inview tweet_classes) (run (watch ns) l)
      × All (Hears on_team_inview team_classes) (run (watch ns) l)
run-watch-Hears ns l = (
  hears on_tweets_inview tweet_classes turn_tweets refl (run (watch ns) l)
      (run-watch-AllInTurn ns l),
  hears on_team_inview team_classes turn_team refl (run (watch ns) l) (run-watch-AllInTurn ns l),
)
