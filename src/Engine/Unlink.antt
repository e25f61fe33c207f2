-- ===== src/Engine/Unlink.antt =====
-- A subscription dropped keeps the links: `unsubscribe` of User.java and `removeSubscriber` of
-- Topic.java in twitterEngine/src/spl/twitter/engine.
use twitter_client_server.Prelude.{
  ◌≡◌, ◌≢◌, refl, Bool, true, false, none, some, [], arith, if◌then◌else◌, inl, inr, Option-cases,
  ◌∙◌, sym, ap,
}
use twitter_client_server.Prelude.Text.{
  Text, eq_text, eq_text_iff, eq_text-cases, mem_text, lookup, remove, lookup-remove, AreUnique,
  remove-AreUnique, eq_text-false,
}
use twitter_client_server.Engine.{
  TopicRef, Topic, Engine, done, ref_name, set_user, set_topic, eq_ref, is_topic_user,
  is_subscribed, drop_subscription, remove_subscriber, unsubscribe_user,
}
use twitter_client_server.Engine.Frame.{eq_ref-cases}
use twitter_client_server.Engine.Sound.{IsLinked}

-- The state after both sides are dropped; the topic's side only if the user is subscribed there.
unfoldable pub cut_topic : Bool → TopicRef → Text → Engine → Engine
unfolding set_topic
cut_topic false r n e = e
cut_topic true r n e =
    set_topic r (record (e.object_at r) { subscribers = remove n ((e.object_at r).subscribers) }) e

unfoldable pub without_link : TopicRef → Text → Text → Engine → Engine
unfolding drop_subscription set_user cut_topic
without_link r id n e = cut_topic (is_subscribed n (e.object_at r)) r n (drop_subscription id n e)

cut_lookup :
    (b : Bool) (r : TopicRef) (id n : Text) (e : Engine) (q : TopicRef) (k : Text)
    → is_subscribed n (e.object_at r) ≡ b
    → lookup k (((cut_topic b r n (drop_subscription id n e)).object_at q).subscribers) ≡ (
        if eq_ref r q
        then if eq_text n k then none else lookup k ((e.object_at r).subscribers)
        else lookup k ((e.object_at q).subscribers))
unfolding cut_topic drop_subscription set_user set_topic
cut_lookup false r id n e q k h = elim (eq_ref-cases r q) [
  | inl (same, y) ↦ rw (y, same) (ground (arith, same, h, eq_text_iff n k))
  | inr (other, y) ↦ rw y refl
]
cut_lookup true r id n e q k h = elim (eq_ref-cases r q) [
  | inl (same, y) ↦ rw y (lookup-remove n k ((e.object_at r).subscribers))
  | inr (other, y) ↦ rw y refl
]

pub lookup-without_link :
    (r : TopicRef) (id n : Text) (e : Engine) (q : TopicRef) (k : Text)
    → lookup k (((without_link r id n e).object_at q).subscribers) ≡ (
        if eq_ref r q
        then if eq_text n k then none else lookup k ((e.object_at r).subscribers)
        else lookup k ((e.object_at q).subscribers))
unfolding without_link
lookup-without_link r id n e q k = cut_lookup (is_subscribed n (e.object_at r)) r id n e q k refl

cut_user :
    (b : Bool) (r : TopicRef) (id n : Text) (e : Engine)
    → (cut_topic b r n (drop_subscription id n e)).user_at ≡ (drop_subscription id n e).user_at
unfolding cut_topic set_topic
cut_user false r id n e = refl
cut_user true r id n e = refl

pub subscriptions-without_link :
    (r : TopicRef) (id n : Text) (e : Engine) (k j : Text)
    → lookup j (((without_link r id n e).user_at k).subscribed_topics) ≡ (
        if eq_text n k
        then if eq_text id j then none else lookup j ((e.user_at n).subscribed_topics)
        else lookup j ((e.user_at k).subscribed_topics))
unfolding without_link drop_subscription set_user
subscriptions-without_link r id n e k j =
    rw (cut_user (is_subscribed n (e.object_at r)) r id n e, drop_subscription)
      (elim (eq_text-cases n k) [
        | inl (same, y) ↦ rw y (lookup-remove id j ((e.user_at n).subscribed_topics))
        | inr (other, y) ↦ rw y refl
      ])

remove_subscriber_lem :
    (n : Text) (r : TopicRef) (e : Engine)
    → is_topic_user n (e.object_at r) ≡ false
    → remove_subscriber n r e ≡ (cut_topic (is_subscribed n (e.object_at r)) r n e, done)
unfolding remove_subscriber cut_topic
remove_subscriber_lem n r e h = ground arith

is_topic_user-false :
    (n : Text) (t : Topic)
    → ((m : Text) → t.topic_user ≡ some m → m ≢ n)
    → is_topic_user n t ≡ false
is_topic_user-false n t other = elim (Option-cases t.topic_user) [
  | inl y ↦ rw y refl
  | inr (m, y) ↦ rw y (eq_text-false m n (other m y))
]

module _ (id n : Text) (e : Engine) (r : TopicRef) (k : IsLinked e)
    (h : lookup id ((e.user_at n).subscribed_topics) ≡ some r) (foreign_name : ref_name r ≢ n) where
  -- An id that is the user's, of a topic of another name, is given up with its topic.
  pub unsubscribe_user_lem : unsubscribe_user id n e ≡ (without_link r id n e, done)
  unfolding unsubscribe_user without_link drop_subscription set_user
  unsubscribe_user_lem =
      let own : eq_text ((e.object_at r).topic_name) ((e.user_at n).username) ≡ false =
        eq_text-false _ _ (λ y. foreign_name (sym (k.named r) ∙ y ∙ k.username n)) in
      rw (h, unsubscribe_user, own)
        (remove_subscriber_lem n r (drop_subscription id n e)
          (is_topic_user-false n (e.object_at r) (λ m y z. foreign_name (k.owned r m y ∙ z))))

  held_without :
      (q : TopicRef) (m j : Text)
      → lookup m (((without_link r id n e).object_at q).subscribers) ≡ some j
      → lookup j (((without_link r id n e).user_at m).subscribed_topics) ≡ some q
  held_without q m j y = elim (eq_ref-cases r q) [
    | inl (same, z) ↦ ground (
      arith,
      same,
      z,
      lookup-without_link r id n e q m,
      subscriptions-without_link r id n e m j,
      k.held r m j,
      eq_text_iff n m,
      eq_text_iff id j,
    )
    | inr (differ, z) ↦ ground (
      arith,
      z,
      h,
      differ,
      lookup-without_link r id n e q m,
      subscriptions-without_link r id n e m j,
      k.held q m j,
      eq_text_iff n m,
      eq_text_iff id j,
    )
  ]

  without_keeps :
      (b : Bool) (q : TopicRef)
      → AreUnique ((cut_topic b r n (drop_subscription id n e)).object_at q).subscribers
        × (((cut_topic b r n (drop_subscription id n e)).object_at q).topic_name
            ≡ (e.object_at q).topic_name)
        × (((cut_topic b r n (drop_subscription id n e)).object_at q).topic_user
            ≡ (e.object_at q).topic_user)
  unfolding drop_subscription set_user set_topic cut_topic
  without_keeps false q = (k.unique q, refl, refl)
  without_keeps true q = elim (eq_ref-cases r q) [
    | inl (same, y) ↦ rw y (
      remove-AreUnique n _ (k.unique r),
      ap (λ (x : TopicRef). (e.object_at x).topic_name) same,
      ap (λ (x : TopicRef). (e.object_at x).topic_user) same,
    )
    | inr (differ, y) ↦ rw y (k.unique q, refl, refl)
  ]

  without_globals :
      (b : Bool)
      → ((cut_topic b r n (drop_subscription id n e)).users ≡ e.users)
        × ((cut_topic b r n (drop_subscription id n e)).topics ≡ e.topics)
  unfolding drop_subscription set_user set_topic cut_topic
  without_globals false = (refl, refl)
  without_globals true = (refl, refl)

  dropped_user :
      (m : Text)
      → AreUnique (((drop_subscription id n e).user_at m).subscribed_topics)
        × (((drop_subscription id n e).user_at m).username ≡ m)
        × (mem_text m e.users ≡ false
            → ((drop_subscription id n e).user_at m).subscribed_topics ≡ [])
  unfolding drop_subscription set_user remove
  dropped_user m = elim (eq_text-cases n m) [
    | inl (same, y) ↦ rw y (
      remove-AreUnique id _ (k.ids n),
      k.username n ∙ same,
      λ z. rw (k.unknown n (ground (arith, same, z)), remove) refl,
    )
    | inr (differ, y) ↦ rw y (k.ids m, k.username m, k.unknown m)
  ]

  pub without_link-IsLinked : IsLinked (without_link r id n e)
  unfolding without_link
  without_link-IsLinked =
      let b = is_subscribed n (e.object_at r) in
      record {
        unique = λ q. (without_keeps b q).0;
        ids = λ m. rw (cut_user b r id n e) (dropped_user m).0;
        named = λ q. (without_keeps b q).1 ∙ k.named q;
        owned = λ q m y. k.owned q m (sym ((without_keeps b q).2) ∙ y);
        mapped = λ name q y. k.mapped name q (rw (← (without_globals b).1) y);
        username = λ m. rw (cut_user b r id n e) (dropped_user m).1;
        unknown =
            λ m y. rw (cut_user b r id n e) ((dropped_user m).2 (rw (← (without_globals b).0) y));
        held = held_without;
        foreign = λ m j q y z. ground (
          arith,
          subscriptions-without_link r id n e m j,
          k.foreign m j q,
          k.foreign n j q,
          eq_text_iff n m,
          eq_text_iff id j,
        );
      }
