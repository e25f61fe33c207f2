-- ===== src/Browser.antt =====
-- The timers of the browser that the scripts under twitterClient/twitterClient/assets/js use:
-- `setTimeout`, `clearTimeout`, and the moment at which one of the pending callbacks runs. The
-- type `A` lists the callbacks that a script registers.
pub mod Laws
use twitter_client_server.Prelude.{ℕ, ◌+◌, Option, none, some, List, [], ◌∷◌, ◌==◌, if◌then◌else◌}

-- Handles are positive, as in a browser.
pub record Timers {ℓ} (A : Type ℓ) : Type ℓ where
  pub next_id : ℕ
  pub pending : List (ℕ × A)

module _ {ℓ} {A : Type ℓ} where
  abbrev pub no_timers : Timers A
  no_timers = record { next_id = 1; pending = [] }

  -- The handle that the next `setTimeout` returns is `next_id`.
  unfoldable pub set_timeout : A → Timers A → Timers A
  set_timeout a t = record { next_id = t.next_id + 1; pending = (t.next_id, a) ∷ t.pending }

  unfoldable pub remove : ℕ → List (ℕ × A) → List (ℕ × A)
  remove h [] = []
  remove h ((i, a) ∷ rest) = if i == h then remove h rest else (i, a) ∷ remove h rest

  -- `clearTimeout` of `undefined`, or of a handle that is not pending, does nothing.
  unfoldable pub clear_timeout : Option ℕ → Timers A → Timers A
  unfolding remove
  clear_timeout none t = t
  clear_timeout (some h) t = record t { pending = remove h t.pending }

  unfoldable pub find : ℕ → List (ℕ × A) → Option A
  find h [] = none
  find h ((i, a) ∷ rest) = if i == h then some a else find h rest
