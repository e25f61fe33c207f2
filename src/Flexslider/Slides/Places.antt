-- ===== src/Flexslider/Slides/Places.antt =====
-- Lists of slides of assets/js/jquery.flexslider.js with one more or one less, and what stands at
-- their places.
use twitter_client_server.Prelude.{
  ℕ, zero, suc, ◌+◌, ◌-◌, ◌≡◌, ◌≢◌, ◌≤◌, ◌<◌, refl, not, ◌&&◌, List, [], ◌∷◌, ◌++◌, if◌then◌else◌,
  ◌==◌, ltb, leb, length, get_elem?, arith, ◌∙◌, ap, inl, inr, ◌⊎◌, Bool-cases,
}
use twitter_client_server.Flexslider.Slides.{insert_before, remove_at}

pub length-insert_before :
    (p x : ℕ) (ys : List ℕ) → p < length ys → length (insert_before p x ys) ≡ length ys + 1
unfolding insert_before
length-insert_before p x [] h = absurd (omega (arith, h))
length-insert_before zero x (y ∷ ys) h = omega arith
length-insert_before (suc p) x (y ∷ ys) h = omega (arith, length-insert_before p x ys (omega arith))

pub length-remove_at :
    (p : ℕ) (ys : List ℕ) → p < length ys → length (remove_at p ys) + 1 ≡ length ys
unfolding remove_at
length-remove_at p [] h = absurd (omega (arith, h))
length-remove_at zero (y ∷ ys) h = omega arith
length-remove_at (suc p) (y ∷ ys) h = omega (arith, length-remove_at p ys (omega arith))

pub get_elem?-before :
    (c p x : ℕ) (ys : List ℕ)
    → c < p
    → p < length ys
    → get_elem? (insert_before p x ys) c ≡ get_elem? ys c
unfolding insert_before
get_elem?-before c zero x ys h k = absurd (omega (arith, h))
get_elem?-before c (suc p) x [] h k = refl
get_elem?-before zero (suc p) x (y ∷ ys) h k = refl
get_elem?-before (suc c) (suc p) x (y ∷ ys) h k =
    get_elem?-before c p x ys (omega arith) (omega arith)

pub get_elem?-behind :
    (c p x : ℕ) (ys : List ℕ)
    → p ≤ c
    → p < length ys
    → get_elem? (insert_before p x ys) (suc c) ≡ get_elem? ys c
unfolding insert_before
get_elem?-behind c p x [] h k = absurd (omega (arith, k))
get_elem?-behind c zero x (y ∷ ys) h k = refl
get_elem?-behind zero (suc p) x (y ∷ ys) h k = absurd (omega (arith, h))
get_elem?-behind (suc c) (suc p) x (y ∷ ys) h k =
    get_elem?-behind c p x ys (omega arith) (omega arith)

pub get_elem?-append :
    (c x : ℕ) (ys : List ℕ) → c < length ys → get_elem? (ys ++ x ∷ []) c ≡ get_elem? ys c
get_elem?-append c x [] h = absurd (omega (arith, h))
get_elem?-append zero x (y ∷ ys) h = refl
get_elem?-append (suc c) x (y ∷ ys) h = get_elem?-append c x ys (omega arith)

pub get_elem?-remaining :
    (c p : ℕ) (ys : List ℕ) → c < p → get_elem? (remove_at p ys) c ≡ get_elem? ys c
unfolding remove_at
get_elem?-remaining c p [] h = refl
get_elem?-remaining c zero (y ∷ ys) h = absurd (omega (arith, h))
get_elem?-remaining zero (suc p) (y ∷ ys) h = refl
get_elem?-remaining (suc c) (suc p) (y ∷ ys) h = get_elem?-remaining c p ys (omega arith)

pub get_elem?-moved_up :
    (c p : ℕ) (ys : List ℕ) → p ≤ c → get_elem? (remove_at p ys) c ≡ get_elem? ys (suc c)
unfolding remove_at
get_elem?-moved_up c p [] h = refl
get_elem?-moved_up c zero (y ∷ ys) h = refl
get_elem?-moved_up zero (suc p) (y ∷ ys) h = absurd (omega (arith, h))
get_elem?-moved_up (suc c) (suc p) (y ∷ ys) h = get_elem?-moved_up c p ys (omega arith)

abbrev pub moved : ℕ → ℕ → ℕ
moved p c = if ltb p c then c + 1 else if leb p c && not (p == 0) then c - 1 else c

pub moved_before : (p c : ℕ) → p < c → moved p c ≡ suc c
moved_before p c h = ground (arith, h)

pub moved_behind : (p c : ℕ) → c < p → moved p c ≡ c
moved_behind p c h = ground (arith, h)

pub get_elem?-at : (ys : List ℕ) → {i j : ℕ} → i ≡ j → get_elem? ys i ≡ get_elem? ys j
get_elem?-at ys e = ap (get_elem? ys) e

pub le_or_lt : (p c : ℕ) → (p ≤ c) ⊎ (c < p)
le_or_lt p c = elim (Bool-cases (leb p c)) [
  | inl e ↦ inl (ground (arith, e))
  | inr e ↦ inr (ground (arith, e))
]

pub get_elem?-moved :
    (p c x : ℕ) (ys : List ℕ)
    → p < length ys
    → p ≢ c
    → get_elem? (insert_before p x ys) (moved p c) ≡ get_elem? ys c
get_elem?-moved p c x ys h n = elim (le_or_lt p c) [
  | inl le ↦
      get_elem?-at (insert_before p x ys) (moved_before p c (omega (arith, le, n)))
      ∙ get_elem?-behind c p x ys le h
  | inr lt ↦
      get_elem?-at (insert_before p x ys) (moved_behind p c lt) ∙ get_elem?-before c p x ys lt h
]
