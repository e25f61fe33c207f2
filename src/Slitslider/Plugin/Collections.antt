-- ===== src/Slitslider/Plugin/Collections.antt =====
-- What `$.fn.slitslider` of assets/js/jquery.slitslider.js does to a collection of several elements.
use twitter_client_server.Prelude.{
  ℕ, zero, suc, ◌+◌, ◌≡◌, refl, Bool, true, false, Option, none, some, List, [], ◌∷◌, ◌++◌, map,
  length, get_elem?, set, ◌∙◌, ap, sym, if◌then◌else◌, arith,
}
use twitter_client_server.Slitslider.{Overrides}
use twitter_client_server.Slitslider.Slider.Events.{init}
use twitter_client_server.Slitslider.Plugin.{
  Element, Instance, Method, Log, prior_to_initialization, Page, wrap, init_again, again,
  new_instance, create, create_on, call_on, by_name, by_options, plugin,
}

call_on-none :
    (m : Method) (ks : List ℕ) (store : List Instance)
    → call_on none m ks store ≡ (store, map (λ k. prior_to_initialization) ks)
unfolding call_on
call_on-none m [] store = refl
call_on-none m (k ∷ ks) store =
    ap (λ (r : List Instance × List Log). (r.0, prior_to_initialization ∷ r.1))
      (call_on-none m ks store)

-- A call by a name, on a collection that jQuery has just made, never reaches a slider: it logs for each
-- element that there is none, also when the elements have their sliders.
pub plugin-by_name :
    (support : Bool) (m : Method) (ks : List ℕ) (p : Page)
    → plugin support none (by_name m) ks p
      ≡ record p { logs = p.logs ++ map (λ k. prior_to_initialization) ks }
unfolding plugin
plugin-by_name support m ks p =
    ap (λ (r : List Instance × List Log). record p { store = r.0; logs = p.logs ++ r.1 })
      (call_on-none m ks p.store)

module _ {ℓ} {A : Type ℓ} where
  set-some :
      (l : List A) (r : ℕ) (x y : A) → get_elem? l r ≡ some x → get_elem? (set l r y) r ≡ some y
  set-some [] r x y e = cc
  set-some (z ∷ l) zero x y e = refl
  set-some (z ∷ l) (suc r) x y e = set-some l r x y e

  set-same : (l : List A) (r : ℕ) (x : A) → get_elem? l r ≡ some x → set l r x ≡ l
  set-same [] r x e = refl
  set-same (z ∷ l) zero x e = cc
  set-same (z ∷ l) (suc r) x e = ap (λ m. z ∷ m) (set-same l r x e)

  last_of_append : (l : List A) (x : A) → get_elem? (l ++ x ∷ []) (length l) ≡ some x
  last_of_append [] x = refl
  last_of_append (z ∷ l) x = last_of_append l x

-- The object `i` stands in the store at `r`, and its element is there, wrapped.
record Stands (r : ℕ) (es : List Element) (store : List Instance) (i : Instance) (e : Element)
    : Type 0 where
  there : get_elem? store r ≡ some i
  element : get_elem? es i.wrapper ≡ some e
  wrapped : e.wrapped ≡ true

again_lem :
    (r : ℕ) (es : List Element) (store : List Instance) (i : Instance) (e : Element)
    → Stands r es store i e
    → again r es store ≡ (es, set store r (init_again e i))
unfolding again
again_lem r es store i e v =
    ap
      (λ (o : Option Instance). elim o as (λ (x : Option Instance). List Element × List Instance) [
        | none ↦ (es, store)
        | some j ↦
            elim (get_elem? es j.wrapper)
              as (λ (x : Option Element). List Element × List Instance) [
                | none ↦ (es, store)
                | some d ↦ (set es j.wrapper (wrap d), set store r (init_again d j))
              ]
      ])
      v.there
    ∙ ap
        (λ (o : Option Element). elim o as (λ (x : Option Element). List Element × List Instance) [
          | none ↦ (es, store)
          | some d ↦ (set es i.wrapper (wrap d), set store r (init_again d i))
        ])
        v.element
    ∙ ap (λ l. (l, set store r (init_again e i)))
        (ap (set es i.wrapper) wrapped_same ∙ set-same es i.wrapper e v.element)
  where
    wrapped_same : wrap e ≡ e
    wrapped_same = ap (λ b. record e { wrapped = b }) (sym v.wrapped)

-- What is left of a slider that is set up again.
pub record IsEmptied (n : ℕ) (o : Option Instance) : Type 0 where
  pub kept : Instance
  pub there : o ≡ some kept
  pub no_slides : kept.slider.slides ≡ []
  pub bound : kept.bindings ≡ n

init_again-slides :
    (e : Element) (i : Instance) → e.wrapped ≡ true → (init_again e i).slider.slides ≡ []
unfolding init_again
init_again-slides e i w = ap (λ (b : Bool). if b then [] else e.slides) w

init_again-bindings : (e : Element) (i : Instance) → (init_again e i).bindings ≡ i.bindings + 1
unfolding init_again
init_again-bindings e i = refl

init_again-wrapper : (e : Element) (i : Instance) → (init_again e i).wrapper ≡ i.wrapper
unfolding init_again
init_again-wrapper e i = refl

again-Stands :
    (r : ℕ) (es : List Element) (store : List Instance) (i : Instance) (e : Element)
    → Stands r es store i e
    → Stands r es (set store r (init_again e i)) (init_again e i) e
again-Stands r es store i e v = record {
  there = set-some store r i (init_again e i) v.there;
  element = rw (init_again-wrapper e i) v.element;
  wrapped = v.wrapped;
}

rounds_lem :
    (support : Bool) (o : Overrides) (r : ℕ) (ks : List ℕ) (es : List Element)
    (store : List Instance) (i : Instance) (e : Element)
    → Stands r es store i e
    → (length ks ≡ 0 → i.slider.slides ≡ [])
    → ((create_on support o (some r) ks es store).0 ≡ es)
      × IsEmptied
          (i.bindings + length ks)
          (get_elem? (create_on support o (some r) ks es store).1 r)
unfolding create_on
rounds_lem support o r [] es store i e v n =
    (refl, record { kept = i; there = v.there; no_slides = n refl; bound = omega arith })
rounds_lem support o r (k ∷ ks) es store i e v n =
    let j = init_again e i in
    let rest =
      rounds_lem support o r ks es (set store r j) j e (again-Stands r es store i e v)
        (λ h. init_again-slides e i v.wrapped) in
    rw (again_lem r es store i e v, create_on)
      (
        rest.0,
        record {
          kept = rest.1.kept;
          there = rest.1.there;
          no_slides = rest.1.no_slides;
          bound = ground (arith, rest.1.bound, init_again-bindings e i);
        },
      )

create_lem :
    (support : Bool) (o : Overrides) (k : ℕ) (es : List Element) (store : List Instance)
    (e : Element)
    → get_elem? es k ≡ some e
    → create support o k es store ≡ (
      set es k (wrap (record e { data_of = some (length store) })),
      store ++ new_instance support o k e ∷ [],
    )
unfolding create
create_lem support o k es store e h = rw (h, create) refl

created-Stands :
    (support : Bool) (o : Overrides) (k : ℕ) (es : List Element) (store : List Instance)
    (e : Element)
    → get_elem? es k ≡ some e
    → let d = wrap (record e { data_of = some (length store) }) in
      let i = new_instance support o k e in Stands (length store) (set es k d) (store ++ i ∷ []) i d
unfolding new_instance
created-Stands support o k es store e h = record {
  there = last_of_append store (new_instance support o k e);
  element = set-some es k e (wrap (record e { data_of = some (length store) })) h;
  wrapped = refl;
}

-- A call with options on an element whose slides were not wrapped yet makes a slider of its slides. On
-- a collection that starts with that element the other elements get nothing in their data: the slider
-- of the first is set up again for each of them, finds no slides, and has its listeners bound once
-- more each time.
pub plugin-by_options :
    (support : Bool) (o : Overrides) (k j : ℕ) (js : List ℕ) (p : Page) (e : Element)
    → get_elem? p.elements k ≡ some e
    → e.wrapped ≡ false
    → (get_elem? (plugin support none (by_options o) (k ∷ []) p).store (length p.store)
        ≡ some (record {
          slider = init support e.width e.height e.slides o;
          wrapper = k;
          bindings = 1;
        }))
      × (((plugin support none (by_options o) (k ∷ j ∷ js) p).elements
            ≡ set p.elements k (wrap (record e { data_of = some (length p.store) })))
          × IsEmptied (2 + length js) (
              get_elem? (plugin support none (by_options o) (k ∷ j ∷ js) p).store (length p.store)))
unfolding plugin create_on new_instance
plugin-by_options support o k j js p e h w =
    let made = create_lem support o k p.elements p.store e h in
    let first = created-Stands support o k p.elements p.store e h in
    let rest =
      rounds_lem support o (length p.store) (j ∷ js) _ _ _ _ first (λ z. absurd (omega arith)) in
    rw (made, create_on)
      (
        first.there
            ∙ ap
                (λ (b : Bool). some (record {
                  slider = init support e.width e.height (if b then [] else e.slides) o;
                  wrapper = k;
                  bindings = 1;
                }))
                w,
        (
          rest.0,
          record {
            kept = rest.1.kept;
            there = rest.1.there;
            no_slides = rest.1.no_slides;
            bound = rest.1.bound ∙ omega arith;
          },
        ),
      )
