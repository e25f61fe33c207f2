-- ===== src/Browser/Laws.antt =====
-- Laws of the timers: handles are never used twice, and a timer that is cleared or runs out takes
-- no other with it.
use twitter_client_server.Prelude.{
  ℕ, ◌+◌, ◌≤◌, ◌<◌, ◌≡◌, ◌≢◌, refl, Bool, true, inl, inr, none, some, List, [], ◌∷◌, arith,
  if◌then◌else◌, ◌==◌, Bool-cases,
}
use twitter_client_server.Browser.{Timers, set_timeout, remove, find}

module _ {ℓ} {A : Type ℓ} where
  -- Every handle is below `n`.
  abbrev pub Below : ℕ → List (ℕ × A) → Type 0
  Below n [] = Unit
  Below n ((i, a) ∷ l) = (i < n) × Below n l

  abbrev pub Lacks : ℕ → List (ℕ × A) → Type 0
  Lacks h [] = Unit
  Lacks h ((i, a) ∷ l) = (i ≢ h) × Lacks h l

  abbrev pub Distinct : List (ℕ × A) → Type 0
  Distinct [] = Unit
  Distinct ((i, a) ∷ l) = Lacks i l × Distinct l

  pub record IsFresh (t : Timers A) : Type 0 where
    pub below : Below t.next_id t.pending
    pub distinct : Distinct t.pending

  -- How many of the pending callbacks satisfy a test.
  unfoldable pub count : (A → Bool) → List (ℕ × A) → ℕ
  count p [] = 0
  count p ((i, a) ∷ l) = if p a then count p l + 1 else count p l

  Below-suc : (n : ℕ) (l : List (ℕ × A)) → Below n l → Below (n + 1) l
  Below-suc n [] b = tt
  Below-suc n ((i, a) ∷ l) b = (omega arith, Below-suc n l b.1)

  Lacks-of_Below : (n h : ℕ) (l : List (ℕ × A)) → Below n l → n ≤ h → Lacks h l
  Lacks-of_Below n h [] b e = tt
  Lacks-of_Below n h ((i, a) ∷ l) b e = ((λ q. omega arith), Lacks-of_Below n h l b.1 e)

  pub set_timeout-IsFresh : (a : A) (t : Timers A) → IsFresh t → IsFresh (set_timeout a t)
  unfolding set_timeout
  set_timeout-IsFresh a t f = record {
    below = (omega arith, Below-suc t.next_id t.pending f.below);
    distinct = (Lacks-of_Below t.next_id t.next_id t.pending f.below (omega arith), f.distinct);
  }

  Below-remove : (n h : ℕ) (l : List (ℕ × A)) → Below n l → Below n (remove h l)
  unfolding remove
  Below-remove n h [] b = tt
  Below-remove n h ((i, a) ∷ l) b = elim (Bool-cases (i == h)) [
    | inl e ↦ rw e (Below-remove n h l b.1)
    | inr e ↦ rw e (b.0, Below-remove n h l b.1)
  ]

  Lacks-remove : (k h : ℕ) (l : List (ℕ × A)) → Lacks k l → Lacks k (remove h l)
  unfolding remove
  Lacks-remove k h [] b = tt
  Lacks-remove k h ((i, a) ∷ l) b = elim (Bool-cases (i == h)) [
    | inl e ↦ rw e (Lacks-remove k h l b.1)
    | inr e ↦ rw e (b.0, Lacks-remove k h l b.1)
  ]

  Distinct-remove : (h : ℕ) (l : List (ℕ × A)) → Distinct l → Distinct (remove h l)
  unfolding remove
  Distinct-remove h [] d = tt
  Distinct-remove h ((i, a) ∷ l) d = elim (Bool-cases (i == h)) [
    | inl e ↦ rw e (Distinct-remove h l d.1)
    | inr e ↦ rw e (Lacks-remove i h l d.0, Distinct-remove h l d.1)
  ]

  pub remove-IsFresh :
      (h : ℕ) (t : Timers A) → IsFresh t → IsFresh (record t { pending = remove h t.pending })
  remove-IsFresh h t f = record {
    below = Below-remove t.next_id h t.pending f.below;
    distinct = Distinct-remove h t.pending f.distinct;
  }

  remove_of_Lacks : (h : ℕ) (l : List (ℕ × A)) → Lacks h l → remove h l ≡ l
  unfolding remove
  remove_of_Lacks h [] b = refl
  remove_of_Lacks h ((i, a) ∷ l) b = ground (arith, remove_of_Lacks h l b.1)

  -- A handle that is not pending removes nothing.
  pub remove_absent : (h : ℕ) (l : List (ℕ × A)) → find h l ≡ none → remove h l ≡ l
  unfolding remove find
  remove_absent h [] e = refl
  remove_absent h ((i, a) ∷ l) e = ground (arith, remove_absent h l)

  -- A handle that is pending removes its own callback alone.
  pub count-remove :
      (p : A → Bool) (h : ℕ) (l : List (ℕ × A)) (a : A)
      → Distinct l
      → find h l ≡ some a
      → count p (remove h l) + (if p a then 1 else 0) ≡ count p l
  unfolding remove find count
  count-remove p h [] a d e = cc
  count-remove p h ((i, b) ∷ l) a d e =
      ground (arith, remove_of_Lacks i l d.0, count-remove p h l a d.1)

  pub find-remove_self : (h : ℕ) (l : List (ℕ × A)) → find h (remove h l) ≡ none
  unfolding remove find
  find-remove_self h [] = refl
  find-remove_self h ((i, a) ∷ l) = ground (arith, find-remove_self h l)

  pub find-remove_ne : (h k : ℕ) (l : List (ℕ × A)) → h ≢ k → find k (remove h l) ≡ find k l
  unfolding remove find
  find-remove_ne h k [] n = refl
  find-remove_ne h k ((i, a) ∷ l) n = ground (arith, find-remove_ne h k l n)

  find_of_Lacks : (h : ℕ) (l : List (ℕ × A)) → Lacks h l → find h l ≡ none
  unfolding find
  find_of_Lacks h [] b = refl
  find_of_Lacks h ((i, a) ∷ l) b = ground (arith, find_of_Lacks h l b.1)

  -- What is counted is pending under some handle.
  pub found_of_count :
      (p : A → Bool) (l : List (ℕ × A))
      → Distinct l
      → 0 < count p l
      → (h : ℕ) × (a : A) × (find h l ≡ some a) × (p a ≡ true)
  unfolding find count
  found_of_count p [] d c = absurd (omega (arith, c))
  found_of_count p ((i, a) ∷ l) d c = elim (Bool-cases (p a)) [
    | inl e ↦ (i, a, ground arith, e)
    | inr e ↦
        let (h, b, f, q) = found_of_count p l d.1 (ground arith) in
        (h, b, ground (arith, find_of_Lacks i l d.0), q)
  ]
