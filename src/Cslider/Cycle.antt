-- ===== src/Cslider/Cycle.antt =====
-- Turning the pages of the slider of assets/js/jquery.cslider.js one after another.
use twitter_client_server.Prelude.{
  ℕ, zero, suc, ◌+◌, ◌%◌, ◌-◌, ◌<◌, ◌≡◌, refl, Bool, true, false, Option, some, List, [], ◌∷◌,
  arith, if◌then◌else◌, ltb, ap, ◌∙◌, ◌&&◌, sym,
}
use native.Mathlib.Nat.{mod-eq_of_lt, add-mod_right, mod-add-mod}
use twitter_client_server.Prelude.Int.{ℤ, pos, ◌+ℤ◌, ◌-ℤ◌, +ℤ_cancel}
use twitter_client_server.Cslider.{
  Direction, next, prev, Slider, navigate, stop_slideshow, next_page, prev_page, transition_end,
}
use twitter_client_server.Cslider.Frame.{navigate_refused, navigate_accepted}
use twitter_client_server.Cslider.Events.{
  click_next, click_prev, on_transition_end, Event, click_arrow_next, click_arrow_prev,
  transition_ended, step, run,
}

-- At rest on slide `i` of `n`, in a browser whose CSS transitions end the animations.
pub record RestsOn (i n : ℕ) (s : Slider) : Type 0 where
  pub current : s.current ≡ pos i
  pub count : s.slides_count ≡ n
  pub below : i < n
  pub is_animating : s.is_animating ≡ false
  pub end_listener : s.end_listener ≡ transition_end

prev_mod : (i n : ℕ) → i < n → (i + (n - 1)) % n ≡ (if ltb 0 i then i - 1 else n - 1)
prev_mod zero n h =
    let e : (0 + (n - 1)) % n ≡ 0 + (n - 1) = mod-eq_of_lt (omega arith) in ground arith
prev_mod (suc i) n h =
    let g : suc i + (n - 1) ≡ i + n = omega arith in
    let f : i % n ≡ i = mod-eq_of_lt (omega arith) in rw (g, add-mod_right i n, f) (ground arith)

module _ {i n : ℕ} (s : Slider) (v : RestsOn i n s) where
  stop_slideshow-RestsOn : RestsOn i n (stop_slideshow s)
  unfolding stop_slideshow
  stop_slideshow-RestsOn = ground arith

  navigate-RestsOn :
      (j : ℕ) (d : Option Direction)
      → j < n
      → RestsOn j n (on_transition_end true (navigate (pos j) d s))
  unfolding on_transition_end
  navigate-RestsOn j d h =
      ground (arith, navigate_refused (pos j) d s, navigate_accepted (pos j) d s)

  next_page-mod : next_page s ≡ pos ((i + 1) % n)
  unfolding ◌+ℤ◌
  next_page-mod = grind arith

  prev_page-mod : prev_page s ≡ pos ((i + (n - 1)) % n)
  unfolding ◌-ℤ◌
  prev_page-mod = ground (arith, prev_mod i n v.below)

-- A click on an arrow, and the end of the transition that it started.
abbrev pub turn_next : Slider → Slider
turn_next s = run s (click_arrow_next ∷ transition_ended true ∷ [])

abbrev pub turn_prev : Slider → Slider
turn_prev s = run s (click_arrow_prev ∷ transition_ended true ∷ [])

module _ {i n : ℕ} (s : Slider) (v : RestsOn i n s) where
  turn_next-RestsOn : RestsOn ((i + 1) % n) n (turn_next s)
  unfolding run step click_next
  turn_next-RestsOn =
      let w = stop_slideshow-RestsOn s v in
      rw (next_page-mod (stop_slideshow s) w)
        (navigate-RestsOn (stop_slideshow s) w ((i + 1) % n) (some next) (omega (arith, v.below)))

  turn_prev-RestsOn : RestsOn ((i + (n - 1)) % n) n (turn_prev s)
  unfolding run step click_prev
  turn_prev-RestsOn =
      let w = stop_slideshow-RestsOn s v in
      rw (prev_page-mod (stop_slideshow s) w) (
        navigate-RestsOn (stop_slideshow s) w ((i + (n - 1)) % n) (some prev)
          (omega (arith, v.below)))

abbrev pub turns : ℕ → List Event
turns zero = []
turns (suc k) = click_arrow_next ∷ transition_ended true ∷ turns k

mod-add-suc : (i k n : ℕ) → ((i + 1) % n + k) % n ≡ (i + suc k) % n
mod-add-suc i k n =
    let e : i + 1 + k ≡ i + suc k = omega arith in mod-add-mod (i + 1) n k ∙ ap (λ (t : ℕ). t % n) e

turns-RestsOn : (i k n : ℕ) (s : Slider) → RestsOn i n s → RestsOn ((i + k) % n) n (run s (turns k))
unfolding run
turns-RestsOn i zero n s v =
    let e : (i + 0) % n ≡ i = mod-eq_of_lt {n = i + 0} (omega arith) ∙ omega arith in rw e v
turns-RestsOn i (suc k) n s v =
    rw (← mod-add-suc i k n) (turns-RestsOn ((i + 1) % n) k n (turn_next s) (turn_next-RestsOn s v))

-- At rest on slide `i` of `n`, in a browser whose CSS transitions end the animations, `k` clicks on the right arrow, each followed by the end of its transition,
-- lead to slide `i + k` modulo `n`.
pub current-turns :
    (i k n : ℕ) (s : Slider) → RestsOn i n s → (run s (turns k)).current ≡ pos ((i + k) % n)
current-turns i k n s v = (turns-RestsOn i k n s v).current

-- The position of the background, and whether it moves at all.
record Background (moved : ℤ → ℤ) (n : ℕ) (s t : Slider) : Type 0 where
  css_animations : t.css_animations ≡ s.css_animations
  bgpositer : t.bgpositer ≡ (if ltb 1 n && s.css_animations then moved s.bgpositer else s.bgpositer)

module _ {i n : ℕ} (s : Slider) (v : RestsOn i n s) where
  turn_next-Background : Background (λ b. b +ℤ pos 1) n s (turn_next s)
  unfolding run step click_next stop_slideshow on_transition_end ◌+ℤ◌
  turn_next-Background =
      let s' = stop_slideshow s in
      ground (
        arith,
        navigate_refused (next_page s') (some next) s',
        navigate_accepted (next_page s') (some next) s',
      )

  turn_prev-Background : Background (λ b. b -ℤ pos 1) n s (turn_prev s)
  unfolding run step click_prev stop_slideshow on_transition_end ◌-ℤ◌
  turn_prev-Background =
      let s' = stop_slideshow s in
      ground (
        arith,
        navigate_refused (prev_page s') (some prev) s',
        navigate_accepted (prev_page s') (some prev) s',
      )

back_mod : (i n : ℕ) → i < n → ((i + 1) % n + (n - 1)) % n ≡ i
back_mod i n h =
    let e : i + 1 + (n - 1) ≡ i + n = omega arith in
    mod-add-mod (i + 1) n (n - 1) ∙ ap (λ (t : ℕ). t % n) e ∙ add-mod_right i n ∙ mod-eq_of_lt h

unmove :
    (c : Bool) (b : ℤ)
    → (if c then (if c then b +ℤ pos 1 else b) -ℤ pos 1 else (if c then b +ℤ pos 1 else b)) ≡ b
unmove true b = +ℤ_cancel b (pos 1)
unmove false b = refl

-- At rest on slide `i` of `n`, in a browser whose CSS transitions end the animations, a click on
-- the right arrow and one on the left, each followed by the end of its transition, lead back to the
-- slide, and put the background back where it was.
pub turn_prev-turn_next :
    (i n : ℕ) (s : Slider)
    → RestsOn i n s
    → ((turn_prev (turn_next s)).current ≡ s.current)
      × ((turn_prev (turn_next s)).bgpositer ≡ s.bgpositer)
turn_prev-turn_next i n s v =
    let w = turn_next-RestsOn s v in
    let there = turn_next-Background s v in
    let back = turn_prev-Background (turn_next s) w in
    (
      (turn_prev-RestsOn (turn_next s) w).current ∙ ap pos (back_mod i n v.below) ∙ sym v.current,
      rw (back.bgpositer, there.css_animations, there.bgpositer)
          (unmove (ltb 1 n && s.css_animations) s.bgpositer),
    )
