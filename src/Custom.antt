-- ===== src/Custom.antt =====
-- The handlers of assets/js/custom.js: what `inview` does to the tweets and to the team, and the
-- menu of a narrow screen.
pub mod Effects
pub mod Menu
pub mod Examples
use twitter_client_server.Prelude.{
  ℕ, zero, suc, ◌≡◌, Bool, true, false, Option, none, some, List, [], ◌∷◌, ◌++◌, map, if◌then◌else◌,
  ◌==◌,
}
use twitter_client_server.Prelude.Text.{Text, codes}

-- The classes that the handlers add and remove.
pub data Class : Type 0 where
  animated bounce_in_left bounce_in : Class

abbrev same_class : Class → Class → Bool
same_class animated animated = true
same_class bounce_in_left bounce_in_left = true
same_class bounce_in bounce_in = true
same_class _ _ = false

-- `removeClass` and `addClass` of one class
unfoldable pub remove_class : Class → List Class → List Class
remove_class c [] = []
remove_class c (d ∷ ds) = let rest = remove_class c ds in if same_class c d then rest else d ∷ rest

unfoldable pub has_class : Class → List Class → Bool
has_class c [] = false
has_class c (d ∷ ds) = let rest = has_class c ds in if same_class c d then true else rest

unfoldable pub add_class : Class → List Class → List Class
unfolding has_class
add_class c ds = if has_class c ds then ds else ds ++ c ∷ []

-- `inview` on #tweets-container, for the classes of a tweet
unfoldable pub on_tweets_inview : Bool → List Class → List Class
unfolding add_class remove_class
on_tweets_inview visible ds =
    if visible
    then add_class bounce_in_left (add_class animated ds)
    else remove_class bounce_in_left (remove_class animated ds)

-- `inview` on .team, for the classes of one of its items
unfoldable pub on_team_inview : Bool → List Class → List Class
unfolding add_class remove_class
on_team_inview visible ds =
    if visible
    then add_class bounce_in (add_class animated ds)
    else remove_class bounce_in (remove_class animated ds)

-- What a handler makes of the events that an element was told, the newest first.
unfoldable pub hear : (Bool → List Class → List Class) → List Bool → List Class
hear handler [] = []
hear handler (v ∷ vs) = handler v (hear handler vs)

-- A link of #main-nav: how many elements it stands in, its `href` and its text.
pub record Link : Type 0 where
  pub parents : ℕ
  pub href : Text
  pub text : Text

pub record MenuOption : Type 0 where
  pub value : Text
  pub text : Text

-- `perfix`
unfoldable pub prefix : ℕ → Text
prefix parents = if parents == 11 then codes "-" else if parents == 13 then codes "--" else []

unfoldable pub option_of : Link → MenuOption
unfolding prefix
option_of l = record { value = l.href; text = prefix l.parents ++ l.text }

unfoldable pub menu : List Link → List MenuOption
unfolding option_of
menu links = record { value = []; text = codes "Please choose page" } ∷ map option_of links

-- The value of the chosen option, which `change` makes the location of the window.
unfoldable pub on_change : ℕ → List MenuOption → Option Text
on_change n [] = none
on_change zero (o ∷ os) = some o.value
on_change (suc n) (o ∷ os) = on_change n os
