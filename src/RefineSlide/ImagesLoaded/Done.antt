-- ===== src/RefineSlide/ImagesLoaded/Done.antt =====
-- `imagesLoaded` of assets/js/jquery.refineslide.js is done once, when all images have come.
use twitter_client_server.Prelude.{
  ℕ, zero, suc, ◌+◌, ◌≤◌, ◌<◌, ◌≡◌, ◌≢◌, refl, Bool, true, false, ◌||◌, Option, none, some, List,
  [], ◌∷◌, if◌then◌else◌, ◌==◌, leb, length, arith, Bool-cases, inl, inr, ap, ◌∙◌,
}
use twitter_client_server.RefineSlide.ImagesLoaded.{
  Element, Loading, mem, is_blank, push, finish, img_loaded, verdict, look_at, look, waiting, start,
  Event, event, step, run,
}

-- What holds between two events: `doneLoading` was called once if as many images have come as there
-- are, and not if fewer have; an image that came is proper or broken.
pub record IsCounted (s : Loading) : Type 0 where
  pub done : s.done_calls ≡ (if leb (length s.elements) (length s.loaded) then 1 else 0)
  pub bound : s.bound ≡ (if leb (length s.elements) (length s.loaded) then false else true)
  pub kinds : length s.loaded ≡ length s.proper + length s.broken

finish-IsCounted : (i : ℕ) (b : Bool) (s : Loading) → IsCounted s → IsCounted (finish (push i b s))
finish-IsCounted i b s v = ground arith

img_loaded-IsCounted : (i : ℕ) (b : Bool) (s : Loading) → IsCounted s → IsCounted (img_loaded i b s)
unfolding img_loaded
img_loaded-IsCounted i b s v = elim (Bool-cases (is_blank i s.elements || mem i s.loaded)) [
  | inl e ↦ rw e v
  | inr e ↦ rw e (finish-IsCounted i b s v)
]

look_at-IsCounted : (i : ℕ) (x : Element) (s : Loading) → IsCounted s → IsCounted (look_at i x s)
look_at-IsCounted i x s v = by (verdict x)
  where
    by :
        (o : Option Bool)
        → IsCounted (elim o [
          | some b ↦ img_loaded i b s
          | none ↦ if x.ready_state || x.complete then record s { reset = i ∷ s.reset } else s
        ])
    by (some b) = img_loaded-IsCounted i b s v
    by none = ground arith

look-IsCounted : (i : ℕ) (l : List Element) (s : Loading) → IsCounted s → IsCounted (look i l s)
unfolding look
look-IsCounted i [] s v = v
look-IsCounted i (x ∷ l) s v = look-IsCounted (suc i) l (look_at i x s) (look_at-IsCounted i x s v)

if-IsCounted :
    (b : Bool) (s t : Loading) → IsCounted s → IsCounted t → IsCounted (if b then s else t)
if-IsCounted true s t v w = v
if-IsCounted false s t v w = w

step-IsCounted : (e : Event) (s : Loading) → IsCounted s → IsCounted (step s e)
unfolding step
step-IsCounted (event i b) s v =
    if-IsCounted s.bound (img_loaded i b s) s (img_loaded-IsCounted i b s v) v

run-IsCounted : (es : List Event) (s : Loading) → IsCounted s → IsCounted (run s es)
unfolding run
run-IsCounted [] s v = v
run-IsCounted (e ∷ es) s v = run-IsCounted es (step s e) (step-IsCounted e s v)

start-IsCounted : (els : List Element) → IsCounted (start els)
unfolding start
start-IsCounted [] = record { done = ground arith; bound = ground arith; kinds = refl }
start-IsCounted (x ∷ els) =
    look-IsCounted 0 (x ∷ els) (waiting (x ∷ els))
      (record { done = ground arith; bound = ground arith; kinds = refl })

-- `doneLoading` has been called, or given to a timer, once if as many images have come as there are,
-- and not at all if fewer have; whatever was found at first, and after any events. Each image that
-- came counts as either proper or broken.
pub run-start-IsCounted : (els : List Element) (es : List Event) → IsCounted (run (start els) es)
run-start-IsCounted els es = run-IsCounted es (start els) (start-IsCounted els)

-- A step keeps the images, the images that have come, and listeners that were taken away.
record Grows (s t : Loading) : Type 0 where
  elements : t.elements ≡ s.elements
  loaded : (j : ℕ) → mem j s.loaded ≡ true → mem j t.loaded ≡ true
  bound : t.bound ≡ true → s.bound ≡ true

Grows-refl : (s : Loading) → Grows s s
Grows-refl s = record { elements = refl; loaded = λ j e. e; bound = λ e. e }

Grows-trans : {s t u : Loading} → Grows s t → Grows t u → Grows s u
Grows-trans v w = record {
  elements = w.elements ∙ v.elements;
  loaded = λ j e. w.loaded j (v.loaded j e);
  bound = λ e. v.bound (w.bound e);
}

img_loaded-Grows : (i : ℕ) (b : Bool) (s : Loading) → Grows s (img_loaded i b s)
unfolding img_loaded
img_loaded-Grows i b s = record {
  elements = ground arith;
  loaded = λ j e. ground arith;
  bound = λ e. ground arith;
}

look_at-Grows : (i : ℕ) (x : Element) (s : Loading) → Grows s (look_at i x s)
look_at-Grows i x s = by (verdict x)
  where
    by :
        (o : Option Bool)
        → Grows s (elim o [
          | some b ↦ img_loaded i b s
          | none ↦ if x.ready_state || x.complete then record s { reset = i ∷ s.reset } else s
        ])
    by (some b) = img_loaded-Grows i b s
    by none = record {
      elements = ground arith;
      loaded = λ j e. ground arith;
      bound = λ e. ground arith;
    }

look-Grows : (i : ℕ) (l : List Element) (s : Loading) → Grows s (look i l s)
unfolding look
look-Grows i [] s = Grows-refl s
look-Grows i (x ∷ l) s = Grows-trans (look_at-Grows i x s) (look-Grows (suc i) l (look_at i x s))

if-Grows : (b : Bool) (s t u : Loading) → Grows s t → Grows s u → Grows s (if b then t else u)
if-Grows true s t u v w = v
if-Grows false s t u v w = w

step-Grows : (e : Event) (s : Loading) → Grows s (step s e)
unfolding step
step-Grows (event i b) s =
    if-Grows s.bound s (img_loaded i b s) s (img_loaded-Grows i b s) (Grows-refl s)

run-Grows : (es : List Event) (s : Loading) → Grows s (run s es)
unfolding run
run-Grows [] s = Grows-refl s
run-Grows (e ∷ es) s = Grows-trans (step-Grows e s) (run-Grows es (step s e))

abbrev pub targets : List Event → List ℕ
targets [] = []
targets (event i b ∷ es) = i ∷ targets es

img_loaded-mem :
    (i : ℕ) (b : Bool) (s : Loading)
    → is_blank i s.elements ≡ false
    → mem i (img_loaded i b s).loaded ≡ true
unfolding img_loaded
img_loaded-mem i b s n = ground arith

step-mem :
    (i : ℕ) (b : Bool) (s : Loading)
    → is_blank i s.elements ≡ false
    → s.bound ≡ true
    → mem i (step s (event i b)).loaded ≡ true
unfolding step
step-mem i b s n h = ground (arith, img_loaded-mem i b s n)

-- While the listeners are there, the images of all events have come.
came :
    (es : List Event) (s : Loading)
    → ((i : ℕ) → is_blank i s.elements ≡ false)
    → (run s es).bound ≡ true
    → (i : ℕ) → mem i (targets es) ≡ true
    → mem i (run s es).loaded ≡ true
unfolding run
came [] s n b i m = absurd (ground arith)
came (event k d ∷ es) s n b i m =
    let t = step s (event k d) in
    let g = step-Grows (event k d) s in
    let r = run-Grows es t in
    elim (Bool-cases (k == i)) [
      | inl q ↦ r.loaded i (ground (arith, step-mem k d s (n k) (g.bound (r.bound b))))
      | inr q ↦ came es t (λ j. ap (is_blank j) g.elements ∙ n j) b i (ground arith)
    ]

abbrev drop_one : ℕ → List ℕ → List ℕ
drop_one i [] = []
drop_one i (j ∷ l) = if j == i then l else j ∷ drop_one i l

length-drop_one : (i : ℕ) (l : List ℕ) → mem i l ≡ true → length (drop_one i l) + 1 ≡ length l
length-drop_one i [] e = absurd (ground arith)
length-drop_one i (j ∷ l) e = ground (arith, length-drop_one i l)

mem-drop_one : (i k : ℕ) (l : List ℕ) → k ≢ i → mem k l ≡ true → mem k (drop_one i l) ≡ true
mem-drop_one i k [] n e = absurd (ground arith)
mem-drop_one i k (j ∷ l) n e = ground (arith, mem-drop_one i k l n)

-- A list that has all numbers below `n` has at least `n` members.
covers-le : (n : ℕ) (l : List ℕ) → ((i : ℕ) → i < n → mem i l ≡ true) → n ≤ length l
covers-le zero l h = omega arith
covers-le (suc n) l h = omega (
  arith,
  length-drop_one n l (h n (omega arith)),
  covers-le n (drop_one n l) (λ i b. mem-drop_one n i l (λ q. omega arith) (h i (omega arith))),
)

start-elements : (els : List Element) → (start els).elements ≡ els
unfolding start
start-elements [] = refl
start-elements (x ∷ els) = (look-Grows 0 (x ∷ els) (waiting (x ∷ els))).elements

-- When none of the images is the blank one, and each of them has had an event, whatever its kind,
-- how often, and in which order, `doneLoading` has been called, or given to a timer, exactly
-- once.
pub run-start-done :
    (els : List Element) (es : List Event)
    → ((i : ℕ) → is_blank i els ≡ false)
    → ((i : ℕ) → i < length els → mem i (targets es) ≡ true)
    → (run (start els) es).done_calls ≡ 1
run-start-done els es n h =
    let t = run (start els) es in
    let v = run-start-IsCounted els es in
    let q = ap length ((run-Grows es (start els)).elements ∙ start-elements els) in
    elim (Bool-cases t.bound) [
      | inl b ↦
          let c = came es (start els) (λ i. ap (is_blank i) (start-elements els) ∙ n i) b in
          ground (arith, covers-le (length els) t.loaded (λ i p. c i (h i p)), v.done, q)
      | inr b ↦ ground (arith, v.bound, v.done)
    ]
