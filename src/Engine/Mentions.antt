-- ===== src/Engine/Mentions.antt =====
-- MENTION_PATTERN of twitterEngine/src/spl/twitter/engine/TwitterEngine.java, and the texts that
-- java.lang.String makes of a server command.
use mathlib.Core.List.{reverse}
use twitter_client_server.Prelude.{
  ℕ, ◌≤◌, ◌≡◌, refl, Bool, true, false, not, ◌&&◌, ◌||◌, Option, none, some, List, [], ◌∷◌, ◌++◌,
  leb, ◌==◌, if◌then◌else◌, length, All,
}
use twitter_client_server.Prelude.Text.{Text, codes}

abbrev pub is_letter : ℕ → Bool
is_letter c = leb b'a' c && leb c b'z' || leb b'A' c && leb c b'Z'

abbrev pub is_letter_or_digit : ℕ → Bool
is_letter_or_digit c = is_letter c || leb b'0' c && leb c b'9'

-- The characters that the look-behind forbids before an @.
abbrev pub joins : ℕ → Bool
joins c = is_letter_or_digit c || c == b'-' || c == b'_' || c == b'.'

abbrev pub may_start : Option ℕ → Bool
may_start none = true
may_start (some c) = not (joins c)

-- The search keeps the character before and, after an @ that may start a mention, what was read
-- of the name: a letter, then letters and digits.
abbrev pub extends : Option Text → ℕ → Bool
extends none c = false
extends (some []) c = is_letter c
extends (some (d ∷ r)) c = is_letter_or_digit c

abbrev pub read_on : Option ℕ → Option Text → ℕ → Option Text
read_on before none c = if c == b'@' && may_start before then some [] else none
read_on before (some r) c =
    if extends (some r) c
    then some (r ++ c ∷ [])
    else if c == b'@' && may_start before
    then some []
    else none

-- A name of one letter is no match.
abbrev pub found : Option Text → List Text
found none = []
found (some r) = if leb 2 (length r) then r ∷ [] else []

unfoldable pub scan : Option ℕ → Option Text → Text → List Text
scan before name [] = found name
scan before name (c ∷ s) =
    (if extends name c then [] else found name) ++ scan (some c) (read_on before name c) s

unfoldable pub mentions : Text → List Text
unfolding scan
mentions = scan none none

-- `trim`: no character up to the space stays at an end.
unfoldable pub trim_start : Text → Text
trim_start [] = []
trim_start (c ∷ s) = if leb c b' ' then trim_start s else c ∷ s

unfoldable pub trim : Text → Text
unfolding trim_start
trim s = reverse (trim_start (reverse (trim_start s)))

unfoldable pub without : ℕ → Text → Text
without c [] = []
without c (d ∷ s) = let rest = without c s in if d == c then rest else d ∷ rest

unfoldable pub starts_with : Text → Text → Bool
starts_with [] s = true
starts_with (c ∷ p) [] = false
starts_with (c ∷ p) (d ∷ s) = c == d && starts_with p s

mentions_found :
    mentions (codes "@lidan hi a@ken, .@bob @x (@Ken2)") ≡ codes "lidan" ∷ codes "Ken2" ∷ []
unfolding mentions
mentions_found = refl

-- What the pattern accepts after the @.
abbrev IsName : Text → Type 0
IsName [] = ⊥
IsName (c ∷ r) = (is_letter c ≡ true) × All (λ d. is_letter_or_digit d ≡ true) r × (1 ≤ length r)

abbrev IsPart : Option Text → Type 0
IsPart none = Unit
IsPart (some []) = Unit
IsPart (some (c ∷ r)) = (is_letter c ≡ true) × All (λ d. is_letter_or_digit d ≡ true) r
