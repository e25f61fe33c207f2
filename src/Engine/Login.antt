-- ===== src/Engine/Login.antt =====
-- `login` of twitterEngine/src/spl/twitter/engine/User.java.
use twitter_client_server.Prelude.{
  ℕ, ◌≡◌, ◌≢◌, refl, true, false, Option, none, some, List, [], inl, inr, Option-cases, ◌∙◌, ap,
}
use twitter_client_server.Prelude.Text.{Text, eq_text, lookup, eq_text-false}
use twitter_client_server.Engine.{
  TopicRef, Engine, self_id, is_approved, set_protocol, flush_messages, reset_entries,
  reset_subscriptions_info, login,
}
use twitter_client_server.Engine.Frame.{
  Sends, Sends-trans, set_protocol-Sends, flush_messages-Sends,
}
use twitter_client_server.Engine.Inbox.{inbox, inbox-set_protocol, inbox-flush_messages}
use twitter_client_server.Engine.Sound.{IsLinked, Sends-IsLinked}
use twitter_client_server.Engine.Reset.{left_of, reset_subscriptions_info-Resets}

-- What a login leaves behind.
pub record LogsIn (n : Text) (d e : Engine) : Type 0 where
  pub linked : IsLinked e
  pub left : (j : Text) → j ≢ self_id → lookup j ((e.user_at n).subscribed_topics) ≡ none
  pub own :
      lookup self_id ((e.user_at n).subscribed_topics)
      ≡ lookup self_id ((d.user_at n).subscribed_topics)
  pub same_inbox : (u : Text) → inbox e u ≡ inbox d u
  pub users : e.users ≡ d.users
  pub topics : e.topics ≡ d.topics

Resets_all :
    (o : Option TopicRef) (es : List (Text × TopicRef)) (j : Text)
    → o ≡ lookup j es
    → j ≢ self_id
    → left_of es j o ≡ none
Resets_all o es j h other = elim (Option-cases (lookup j es)) [
  | inl y ↦ rw (eq_text-false j self_id other, y) (h ∙ y)
  | inr (r, y) ↦ rw (eq_text-false j self_id other, y) refl
]

pub flushed : ℕ → Text → Engine → Engine
flushed c n e = flush_messages n (set_protocol (some c) n e)

pub flushed-Sends : (c : ℕ) (n : Text) (e : Engine) → Sends e (flushed c n e)
unfolding flushed
flushed-Sends c n e = Sends-trans (set_protocol-Sends (some c) n e) (flush_messages-Sends n _)

pub inbox-flushed : (c : ℕ) (n : Text) (e : Engine) (u : Text) → inbox (flushed c n e) u ≡ inbox e u
unfolding flushed
inbox-flushed c n e u = inbox-flush_messages n _ u ∙ inbox-set_protocol (some c) n e u

-- A login with the right password, on an engine whose topics list subscribers only as these hold the
-- topics, takes from the user every subscription but that under id 0, which stays as it was; every
-- user's messages are as before, in their order.
pub login-LogsIn :
    (password : Text) (c : ℕ) (n : Text) (e : Engine)
    → IsLinked e
    → is_approved password (e.user_at n) ≡ true
    → LogsIn n e (login password c n e).0
unfolding login flushed lookup eq_text flush_messages
login-LogsIn password c n e k ok =
    let s = flushed-Sends c n e in
    let f = flushed c n e in
    let z = reset_subscriptions_info-Resets n f (Sends-IsLinked s k) in
    rw ok (record {
      linked = z.linked;
      left = λ j other. z.left j ∙ Resets_all _ ((f.user_at n).subscribed_topics) j refl other;
      own = z.left self_id ∙ ap (lookup self_id) ((s.same_user n).subscribed_topics);
      same_inbox = λ u. z.same_inbox u ∙ inbox-flushed c n e u;
      users = z.users ∙ s.users;
      topics = z.topics ∙ s.topics;
    })

-- The same for a user who holds no subscription yet.
pub login_fresh :
    (password : Text) (c : ℕ) (n : Text) (e : Engine)
    → is_approved password (e.user_at n) ≡ true
    → (e.user_at n).subscribed_topics ≡ []
    → (login password c n e).0 ≡ flushed c n e
unfolding login reset_subscriptions_info flushed
login_fresh password c n e ok none_yet =
    let s = flushed-Sends c n e in
    rw ok (
      ap (λ (es : List (Text × TopicRef)). reset_entries es n (flushed c n e))
        ((s.same_user n).subscribed_topics ∙ none_yet)
      ∙ unfold reset_entries in refl)

pub login_denied :
    (password : Text) (c : ℕ) (n : Text) (e : Engine)
    → is_approved password (e.user_at n) ≡ false
    → login password c n e ≡ (e, false)
unfolding login
login_denied password c n e no_ = rw no_ refl
