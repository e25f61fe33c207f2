-- ===== src/Engine/Reset.antt =====
-- `resetSubscriptionsInfo` and `login` of twitterEngine/src/spl/twitter/engine/User.java.
use twitter_client_server.Prelude.{
  ◌≡◌, ◌≢◌, refl, Bool, true, false, Option, none, some, List, [], ◌∷◌, arith, if◌then◌else◌, inl,
  inr, ◌∙◌,
}
use twitter_client_server.Prelude.Text.{
  Text, eq_text, eq_text_iff, eq_text-cases, lookup, AreUnique, eq_text_refl, eq_text-false,
}
use twitter_client_server.Engine.{
  TopicRef, Engine, self_id, set_user, set_topic, is_subscribed, drop_subscription, reset_entries,
  reset_subscriptions_info,
}
use twitter_client_server.Engine.Inbox.{inbox}
use twitter_client_server.Engine.Sound.{IsLinked}
use twitter_client_server.Engine.Unlink.{
  cut_topic, without_link, without_link-IsLinked, subscriptions-without_link, unsubscribe_user_lem,
}

pub cut-Inbox :
    (b : Bool) (r : TopicRef) (id n : Text) (e : Engine) (u : Text)
    → inbox (cut_topic b r n (drop_subscription id n e)) u ≡ inbox e u
unfolding inbox cut_topic set_topic drop_subscription set_user
cut-Inbox false r id n e u = elim (eq_text-cases n u) [
  | inl (same, y) ↦ rw y (rw same refl)
  | inr (other, y) ↦ rw y refl
]
cut-Inbox true r id n e u = elim (eq_text-cases n u) [
  | inl (same, y) ↦ rw y (rw same refl)
  | inr (other, y) ↦ rw y refl
]

pub cut_globals :
    (b : Bool) (r : TopicRef) (id n : Text) (e : Engine)
    → ((cut_topic b r n (drop_subscription id n e)).users ≡ e.users)
      × ((cut_topic b r n (drop_subscription id n e)).topics ≡ e.topics)
unfolding cut_topic set_topic drop_subscription set_user
cut_globals false r id n e = (refl, refl)
cut_globals true r id n e = (refl, refl)

pub inbox-without_link :
    (r : TopicRef) (id n : Text) (e : Engine) (u : Text)
    → inbox (without_link r id n e) u ≡ inbox e u
unfolding without_link
inbox-without_link r id n e u = cut-Inbox (is_subscribed n (e.object_at r)) r id n e u

pub globals-without_link :
    (r : TopicRef) (id n : Text) (e : Engine)
    → ((without_link r id n e).users ≡ e.users) × ((without_link r id n e).topics ≡ e.topics)
unfolding without_link
globals-without_link r id n e = cut_globals (is_subscribed n (e.object_at r)) r id n e

-- What is left of a lookup when the listed ids but "0" are given up.
abbrev pub left_of : List (Text × TopicRef) → Text → Option TopicRef → Option TopicRef
left_of es j o =
    if eq_text j self_id
    then o
    else elim (lookup j es) as (λ (x : Option TopicRef). Option TopicRef) [
      | none ↦ o
      | some r ↦ none
    ]

-- The walk over the entries `es` of the user takes `d` to `e`.
pub record Resets (es : List (Text × TopicRef)) (n : Text) (d e : Engine) : Type 0 where
  pub linked : IsLinked e
  pub left :
      (j : Text)
      → lookup j ((e.user_at n).subscribed_topics)
        ≡ left_of es j (lookup j ((d.user_at n).subscribed_topics))
  pub same_inbox : (u : Text) → inbox e u ≡ inbox d u
  pub users : e.users ≡ d.users
  pub topics : e.topics ≡ d.topics

pub reset_entries_self :
    (id : Text) (r : TopicRef) (rest : List (Text × TopicRef)) (n : Text) (e : Engine)
    → eq_text id self_id ≡ true
    → reset_entries ((id, r) ∷ rest) n e ≡ reset_entries rest n e
unfolding reset_entries
reset_entries_self id r rest n e y = rw y refl

pub reset_entries_other :
    (id : Text) (r : TopicRef) (rest : List (Text × TopicRef)) (n : Text) (e : Engine)
    → IsLinked e
    → lookup id ((e.user_at n).subscribed_topics) ≡ some r
    → id ≢ self_id
    → reset_entries ((id, r) ∷ rest) n e ≡ reset_entries rest n (without_link r id n e)
unfolding reset_entries
reset_entries_other id r rest n e k h other = ground (
  arith,
  unsubscribe_user_lem id n e r k h (λ own. other (k.foreign n id r h own)),
  eq_text-false id self_id other,
)

module _ (id : Text) (r : TopicRef) (rest : List (Text × TopicRef)) (n : Text) (e : Engine)
    (unique : AreUnique ((id, r) ∷ rest)) where
  Resets-self : (f : Engine) → id ≡ self_id → Resets rest n e f → Resets ((id, r) ∷ rest) n e f
  unfolding lookup
  Resets-self f same below = record {
    linked = below.linked;
    left = λ j. ground (arith, below.left j, same, eq_text_iff id j, eq_text_iff j self_id);
    same_inbox = below.same_inbox;
    users = below.users;
    topics = below.topics;
  }

  Resets-other :
      (f : Engine)
      → id ≢ self_id
      → Resets rest n (without_link r id n e) f
      → Resets ((id, r) ∷ rest) n e f
  unfolding lookup
  Resets-other f other below = record {
    linked = below.linked;
    left = λ j. ground (
      arith,
      below.left j,
      other,
      unique.0,
      subscriptions-without_link r id n e n j,
      eq_text_iff id j,
      eq_text_iff j self_id,
      eq_text_refl n,
    );
    same_inbox = λ u. below.same_inbox u ∙ inbox-without_link r id n e u;
    users = below.users ∙ (globals-without_link r id n e).0;
    topics = below.topics ∙ (globals-without_link r id n e).1;
  }

pub reset_entries-Resets :
    (es : List (Text × TopicRef)) (n : Text) (e : Engine)
    → IsLinked e
    → AreUnique es
    → ((j : Text) (q : TopicRef)
        → lookup j es ≡ some q
        → lookup j ((e.user_at n).subscribed_topics) ≡ some q)
    → Resets es n e (reset_entries es n e)
unfolding lookup
reset_entries-Resets [] n e k unique agree =
    unfold reset_entries in
    record {
      linked = k;
      left = λ j. ground arith;
      same_inbox = λ u. refl;
      users = refl;
      topics = refl;
    }
reset_entries-Resets ((id, r) ∷ rest) n e k unique agree = elim (eq_text-cases id self_id) [
  | inl (same, y) ↦ rw (reset_entries_self id r rest n e y) (
      Resets-self id r rest n e unique _ same (
        reset_entries-Resets rest n e k unique.1
          (λ j q h. ground (arith, agree j q, h, unique.0, eq_text_iff id j))))
  | inr (other, y) ↦
      let here : lookup id ((e.user_at n).subscribed_topics) ≡ some r =
        agree id r (rw (eq_text_refl id) refl) in
      rw (reset_entries_other id r rest n e k here other) (
        Resets-other id r rest n e unique _ other (
          reset_entries-Resets rest n (without_link r id n e)
            (without_link-IsLinked id n e r k here (λ own. other (k.foreign n id r here own)))
            unique.1
            (λ j q h. ground (
              arith,
              agree j q,
              h,
              unique.0,
              subscriptions-without_link r id n e n j,
              eq_text_iff id j,
              eq_text_refl n,
            ))))
]

pub reset_subscriptions_info-Resets :
    (n : Text) (e : Engine)
    → IsLinked e
    → Resets ((e.user_at n).subscribed_topics) n e (reset_subscriptions_info n e)
unfolding reset_subscriptions_info
reset_subscriptions_info-Resets n e k =
    reset_entries-Resets ((e.user_at n).subscribed_topics) n e k (k.ids n) (λ j q h. h)
