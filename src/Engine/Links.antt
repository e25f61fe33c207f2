-- ===== src/Engine/Links.antt =====
-- A subscription made and dropped keeps the links: `subscribeTo`, `unsubscribe` of User.java and
-- `addSubscriber`, `removeSubscriber` of Topic.java in twitterEngine/src/spl/twitter/engine.
use twitter_client_server.Prelude.{
  ◌≡◌, ◌≢◌, refl, true, none, some, arith, if◌then◌else◌, inl, inr, ◌∙◌, ap,
}
use twitter_client_server.Prelude.Text.{
  Text, eq_text, eq_text_iff, eq_text-cases, mem_text, lookup, lookup-insert, insert-AreUnique,
  eq_text_refl,
}
use twitter_client_server.Engine.{
  TopicRef, Engine, ref_name, set_user, set_topic, eq_ref, subscribe_to, add_subscriber,
  put_subscription,
}
use twitter_client_server.Engine.Frame.{eq_ref-cases}
use twitter_client_server.Engine.Sound.{IsLinked}

-- The entries of a state after a subscription, read at any topic and user.
pub lookup-subscribe_to :
    (r : TopicRef) (id n : Text) (e : Engine) (q : TopicRef) (k : Text)
    → lookup k (((subscribe_to r id n e).object_at q).subscribers) ≡ (
        if eq_ref r q
        then if eq_text n k then some id else lookup k ((e.object_at r).subscribers)
        else lookup k ((e.object_at q).subscribers))
unfolding subscribe_to add_subscriber put_subscription set_user set_topic
lookup-subscribe_to r id n e q k = elim (eq_ref-cases r q) [
  | inl (same, y) ↦ rw y (lookup-insert n k id ((e.object_at r).subscribers))
  | inr (other, y) ↦ rw y refl
]

pub subscriptions-subscribe_to :
    (r : TopicRef) (id n : Text) (e : Engine) (k j : Text)
    → lookup j (((subscribe_to r id n e).user_at k).subscribed_topics) ≡ (
        if eq_text n k
        then if eq_text id j then some r else lookup j ((e.user_at n).subscribed_topics)
        else lookup j ((e.user_at k).subscribed_topics))
unfolding subscribe_to add_subscriber put_subscription set_user set_topic
subscriptions-subscribe_to r id n e k j = elim (eq_text-cases n k) [
  | inl (same, y) ↦ rw y (lookup-insert id j r ((e.user_at n).subscribed_topics))
  | inr (other, y) ↦ rw y refl
]

module _ (r : TopicRef) (id n : Text) (e : Engine) (k : IsLinked e)
    (new : lookup id ((e.user_at n).subscribed_topics) ≡ none) where
  held_after :
      (q : TopicRef) (m j : Text)
      → lookup m (((subscribe_to r id n e).object_at q).subscribers) ≡ some j
      → lookup j (((subscribe_to r id n e).user_at m).subscribed_topics) ≡ some q
  held_after q m j h = elim (eq_ref-cases r q) [
    | inl (same, y) ↦ ground (
      arith,
      same,
      y,
      new,
      lookup-subscribe_to r id n e q m,
      subscriptions-subscribe_to r id n e m j,
      k.held q m j,
      eq_text_iff n m,
      eq_text_iff id j,
      eq_text_refl id,
    )
    | inr (other, y) ↦ ground (
      arith,
      y,
      new,
      lookup-subscribe_to r id n e q m,
      subscriptions-subscribe_to r id n e m j,
      k.held q m j,
      eq_text_iff n m,
      eq_text_iff id j,
    )
  ]

  -- A new subscription to a topic of another name; the user must be known.
  pub subscribe_to-IsLinked :
      ref_name r ≢ n → mem_text n e.users ≡ true → IsLinked (subscribe_to r id n e)
  unfolding subscribe_to add_subscriber put_subscription set_user set_topic
  subscribe_to-IsLinked other known = record {
    unique = λ q. elim (eq_ref-cases r q) [
      | inl (same, y) ↦ rw y (insert-AreUnique n id _ (k.unique r))
      | inr (no_, y) ↦ rw y (k.unique q)
    ];
    ids = λ m. elim (eq_text-cases n m) [
      | inl (same, y) ↦ rw y (insert-AreUnique id r _ (k.ids n))
      | inr (no_, y) ↦ rw y (k.ids m)
    ];
    named = λ q. elim (eq_ref-cases r q) [
      | inl (same, y) ↦ rw y (k.named r ∙ ap ref_name same)
      | inr (no_, y) ↦ rw y (k.named q)
    ];
    owned = λ q m h. elim (eq_ref-cases r q) [
      | inl (same, y) ↦ ground (arith, same, y, h, k.owned r m)
      | inr (no_, y) ↦ ground (arith, y, h, k.owned q m)
    ];
    mapped = k.mapped;
    username = λ m. elim (eq_text-cases n m) [
      | inl (same, y) ↦ rw y (k.username n ∙ same)
      | inr (no_, y) ↦ rw y (k.username m)
    ];
    unknown = λ m h. elim (eq_text-cases n m) [
      | inl (same, y) ↦ absurd (ground (arith, same, known, h))
      | inr (no_, y) ↦ rw y (k.unknown m h)
    ];
    held = held_after;
    foreign = λ m j q h e'. ground (
      arith,
      h,
      e',
      other,
      subscriptions-subscribe_to r id n e m j,
      k.foreign m j q,
      k.foreign n j q,
      eq_text_iff n m,
      eq_text_iff id j,
    );
  }
