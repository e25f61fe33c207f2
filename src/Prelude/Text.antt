-- ===== src/Prelude/Text.antt =====
-- Texts as lists of UTF-16 units, their equality, and association lists that they key.
use Prim.Native.Char.{code}
use Prim.Native.String.{String}
use twitter_client_server.Prelude.{
  ℕ, ◌≡◌, ◌≢◌, refl, ◌↔◌, ◌⊎◌, inl, inr, Bool, true, false, ◌&&◌, Option, none, some, List, [], ◌∷◌,
  ◌++◌, arith, ◌==◌, if◌then◌else◌, Bool-cases,
}

abbrev pub Text : Type 0
Text = List ℕ

abbrev pub codes : String → Text
codes String.[] = []
codes (String.◌∷◌ c s) = code c ∷ codes s

unfoldable pub eq_text : Text → Text → Bool
eq_text [] [] = true
eq_text [] (d ∷ t) = false
eq_text (c ∷ s) [] = false
eq_text (c ∷ s) (d ∷ t) = c == d && eq_text s t

pub eq_text_iff : (s t : Text) → (eq_text s t ≡ true) ↔ (s ≡ t)
unfolding eq_text
eq_text_iff [] [] = ground arith
eq_text_iff [] (d ∷ t) = ground arith
eq_text_iff (c ∷ s) [] = ground arith
eq_text_iff (c ∷ s) (d ∷ t) = ground (arith, eq_text_iff s t)

pub eq_text_refl : (s : Text) → eq_text s s ≡ true
eq_text_refl s = (eq_text_iff s s).1 refl

pub eq_text-false : (s t : Text) → s ≢ t → eq_text s t ≡ false
eq_text-false s t h = ground (arith, eq_text_iff s t)

pub eq_text-cases :
    (s t : Text) → ((s ≡ t) × (eq_text s t ≡ true)) ⊎ ((s ≢ t) × (eq_text s t ≡ false))
eq_text-cases s t = elim (Bool-cases (eq_text s t)) [
  | inl e ↦ inl ((eq_text_iff s t).0 e, e)
  | inr e ↦ inr (λ h. ground (arith, eq_text_iff s t), e)
]

unfoldable pub mem_text : Text → List Text → Bool
mem_text s [] = false
mem_text s (t ∷ ts) = if eq_text t s then true else mem_text s ts

pub mem_text-append :
    (s : Text) (ts us : List Text)
    → mem_text s (ts ++ us) ≡ (if mem_text s ts then true else mem_text s us)
unfolding mem_text
mem_text-append s [] us = refl
mem_text-append s (t ∷ ts) us = ground (arith, mem_text-append s ts us)

module _ {V : Type 0} where
  unfoldable pub lookup : Text → List (Text × V) → Option V
  lookup k [] = none
  lookup k ((j, v) ∷ m) = if eq_text j k then some v else lookup k m

  unfoldable pub insert : Text → V → List (Text × V) → List (Text × V)
  insert k v [] = (k, v) ∷ []
  insert k v ((j, w) ∷ m) = if eq_text j k then (k, v) ∷ m else (j, w) ∷ insert k v m

  unfoldable pub remove : Text → List (Text × V) → List (Text × V)
  remove k [] = []
  remove k ((j, w) ∷ m) = if eq_text j k then remove k m else (j, w) ∷ remove k m

  pub lookup-insert :
      (k j : Text) (v : V) (m : List (Text × V))
      → lookup j (insert k v m) ≡ (if eq_text k j then some v else lookup j m)
  unfolding lookup insert
  lookup-insert k j v [] = refl
  lookup-insert k j v ((i, w) ∷ m) =
      ground (arith, eq_text_iff k j, eq_text_iff i k, eq_text_iff i j, lookup-insert k j v m)

  pub lookup-remove :
      (k j : Text) (m : List (Text × V))
      → lookup j (remove k m) ≡ (if eq_text k j then none else lookup j m)
  unfolding lookup remove
  lookup-remove k j [] = ground arith
  lookup-remove k j ((i, w) ∷ m) =
      ground (arith, eq_text_iff k j, eq_text_iff i k, eq_text_iff i j, lookup-remove k j m)

  -- No key stands twice.
  abbrev pub AreUnique : List (Text × V) → Type 0
  AreUnique [] = Unit
  AreUnique ((k, v) ∷ m) = (lookup k m ≡ none) × AreUnique m

  pub insert-AreUnique :
      (k : Text) (v : V) (m : List (Text × V)) → AreUnique m → AreUnique (insert k v m)
  unfolding insert lookup
  insert-AreUnique k v [] h = (refl, tt)
  insert-AreUnique k v ((j, w) ∷ m) h =
      ground
        (arith, eq_text_iff j k, eq_text_iff k j, lookup-insert k j v m, insert-AreUnique k v m h.1)

  pub remove-AreUnique : (k : Text) (m : List (Text × V)) → AreUnique m → AreUnique (remove k m)
  unfolding remove
  remove-AreUnique k [] h = tt
  remove-AreUnique k ((j, w) ∷ m) h =
      ground (arith, eq_text_iff k j, lookup-remove k j m, remove-AreUnique k m h.1)
