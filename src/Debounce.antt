-- ===== src/Debounce.antt =====
-- The two debounced resize events: `smartresize` of assets/js/jquery.accordion.js and
-- `debouncedresize` of assets/js/jquery.slitslider.js. `A` is what jQuery passes to the handler.
pub mod Once
use twitter_client_server.Prelude.{
  ℕ, Bool, true, false, Option, none, some, List, [], ◌∷◌, if◌then◌else◌,
}
use twitter_client_server.Browser.{Timers, no_timers, set_timeout, remove, clear_timeout, find}

-- A callback that is pending holds the arguments of the event and its delay. `dispatched` lists the
-- events that were passed on, the newest first.
pub record Debounced {ℓ} (A : Type ℓ) : Type ℓ where
  pub resize_timeout : Option ℕ
  pub timers : Timers (A × ℕ)
  pub dispatched : List A

module _ {ℓ} {A : Type ℓ} where
  abbrev pub fresh : Debounced A
  fresh = record { resize_timeout = none; timers = no_timers; dispatched = [] }

  abbrev cleared : Debounced A → Debounced A
  unfolding clear_timeout
  cleared d = record d { timers = clear_timeout d.resize_timeout d.timers }

  abbrev delayed : A → ℕ → Debounced A → Debounced A
  unfolding set_timeout
  delayed a ms d = record d {
    resize_timeout = some d.timers.next_id;
    timers = set_timeout (a, ms) d.timers;
  }

  -- `smartresize.handler`; the test is whether it was called with "execAsap".
  unfoldable pub smartresize : A → Bool → Debounced A → Debounced A
  unfolding cleared delayed
  smartresize a exec_asap d = delayed a (if exec_asap then 0 else 50) (cleared d)

  -- `debouncedresize.handler`, whose threshold is 20
  unfoldable pub debouncedresize : A → Bool → Debounced A → Debounced A
  unfolding cleared delayed
  debouncedresize a true d = let c = cleared d in record c { dispatched = a ∷ c.dispatched }
  debouncedresize a false d = delayed a 20 (cleared d)

  -- The timer `h` runs out: the event is passed on.
  unfoldable pub dispatch : ℕ → Debounced A → Debounced A
  dispatch h d = elim (find h d.timers.pending) [
    | none ↦ d
    | some (a, ms) ↦ record d {
      timers = record (d.timers) { pending = remove h d.timers.pending };
      dispatched = a ∷ d.dispatched;
    }
  ]
