-- ===== src/Engine/Created.antt =====
-- A new user with the own topic, after its last call: `setTopicUser` of Topic.java and `connect` of
-- TwitterEngine.java, in twitterEngine/src/spl/twitter/engine.
use twitter_client_server.Prelude.{
  ℕ, ◌≡◌, ◌≢◌, refl, Bool, true, false, Option, none, some, [], ◌∷◌, ◌++◌, arith, if◌then◌else◌,
  inl, inr, ◌∙◌, sym, ap, subst,
}
use twitter_client_server.Prelude.Text.{
  Text, eq_text, eq_text_iff, eq_text-cases, mem_text, mem_text-append, lookup, insert, AreUnique,
  insert-AreUnique, eq_text_refl, eq_text-false,
}
use twitter_client_server.Engine.{
  TopicRef, topic_of, User, Topic, Engine, self_id, set_user, set_topic, ref_name, eq_ref,
  new_topic, subscribe_to, add_subscriber, put_subscription,
}
use twitter_client_server.Engine.Calls.{new_user, put_names, create_user, set_topic_user}
use twitter_client_server.Engine.Frame.{eq_ref-cases}
use twitter_client_server.Engine.Inbox.{inbox}
use twitter_client_server.Engine.Links.{lookup-subscribe_to, subscriptions-subscribe_to}
use twitter_client_server.Engine.Login.{inbox-flushed}
use twitter_client_server.Engine.Sound.{IsLinked}
use twitter_client_server.Engine.Create.{
  first_user, new_user_lem, Makes, new_user-Makes, lookup-nil,
}

abbrev own_topic : Text → Topic
own_topic name = record (new_topic name) {
  topic_user = some name;
  subscribers = (name, self_id) ∷ [];
}

-- The state at the last call of `setTopicUser`.
based : Text → Engine → Engine
based name d =
    let r = topic_of name in
    let e = set_topic r (new_topic name) (put_names name r d) in
    add_subscriber name self_id r
      (set_topic r (record (e.object_at r) { topic_user = some name }) e)

based-object_at :
    (name : Text) (d : Engine) (q : TopicRef)
    → (based name d).object_at q
      ≡ (if eq_ref (topic_of name) q then own_topic name else d.object_at q)
unfolding based add_subscriber set_topic put_names eq_ref insert
based-object_at name d q = elim (eq_ref-cases (topic_of name) q) [
  | inl (same, y) ↦ rw (eq_text_refl name, y) refl
  | inr (other, y) ↦ rw (eq_text_refl name, y) refl
]

based_own : (name : Text) (d : Engine) → (based name d).object_at (topic_of name) ≡ own_topic name
unfolding eq_ref
based_own name d = based-object_at name d (topic_of name) ∙ rw (eq_text_refl name) refl

based_rest :
    (name : Text) (d : Engine)
    → ((based name d).user_at ≡ d.user_at)
      × ((based name d).users ≡ d.users ++ name ∷ [])
      × ((based name d).topics ≡ (λ k. if eq_text name k then some (topic_of name) else d.topics k))
unfolding based add_subscriber set_topic put_names
based_rest name d = (refl, refl, refl)

module _ (name : Text) (e d : Engine) (m : Makes name e d) (k : IsLinked e)
    (new : mem_text name e.users ≡ false) where
  pub made : Engine
  made = subscribe_to (topic_of name) self_id name (based name d)

  subscribers_made :
      (q : TopicRef) (u : Text)
      → lookup u ((made.object_at q).subscribers) ≡ (
          if eq_ref (topic_of name) q
          then if eq_text name u then some self_id else none
          else lookup u ((e.object_at q).subscribers))
  unfolding made lookup
  subscribers_made q u = elim (eq_ref-cases (topic_of name) q) [
    | inl (same, y) ↦
        lookup-subscribe_to (topic_of name) self_id name (based name d) q u
        ∙ rw (y, based_own name d) (if-same (eq_text name u) (some self_id))
    | inr (other, y) ↦
        lookup-subscribe_to (topic_of name) self_id name (based name d) q u
        ∙ rw (y, based-object_at name d q, y) (ap (lookup u) ((m.same_topic q).subscribers))
  ]
    where
      if-same :
          (b : Bool) (o : Option Text)
          → (if b then o else if b then o else none) ≡ (if b then o else none)
      if-same true o = refl
      if-same false o = refl

  subscriptions_made :
      (u j : Text)
      → lookup j ((made.user_at u).subscribed_topics) ≡ (
          if eq_text name u
          then if eq_text self_id j then some (topic_of name) else none
          else lookup j ((e.user_at u).subscribed_topics))
  unfolding made lookup
  subscriptions_made u j = elim (eq_text-cases name u) [
    | inl (same, y) ↦
        subscriptions-subscribe_to (topic_of name) self_id name (based name d) u j
        ∙ rw (y, (based_rest name d).0, m.subscribed_topics) refl
    | inr (other, y) ↦
        subscriptions-subscribe_to (topic_of name) self_id name (based name d) u j
        ∙ rw (y, (based_rest name d).0) (ap (lookup j) ((m.same_user u other).subscribed_topics))
  ]

  made_object :
      (q : TopicRef)
      → AreUnique ((made.object_at q).subscribers)
        × ((made.object_at q).topic_name ≡ ref_name q)
        × ((u : Text) → (made.object_at q).topic_user ≡ some u → ref_name q ≡ u)
  unfolding made subscribe_to add_subscriber put_subscription set_user set_topic
  made_object q = elim (eq_ref-cases (topic_of name) q) [
    | inl (same, y) ↦
        rw (y, based_own name d)
          (
            insert-AreUnique name self_id _ (lookup-nil name, tt),
            ap ref_name same,
            λ u h. sym (ap ref_name same) ∙ cc (h),
          )
    | inr (other, y) ↦
        rw (y, based-object_at name d q, y)
          (
            subst AreUnique (sym ((m.same_topic q).subscribers)) (k.unique q),
            (m.same_topic q).topic_name ∙ k.named q,
            λ u h. k.owned q u (sym ((m.same_topic q).topic_user) ∙ h),
          )
  ]

  made_user :
      (u : Text)
      → AreUnique ((made.user_at u).subscribed_topics)
        × ((made.user_at u).username ≡ u)
        × (name ≢ u → (made.user_at u).subscribed_topics ≡ (e.user_at u).subscribed_topics)
  unfolding made subscribe_to add_subscriber put_subscription set_user set_topic
  made_user u = elim (eq_text-cases name u) [
    | inl (same, y) ↦
        rw (y, (based_rest name d).0)
          (
            subst (λ es. AreUnique (insert self_id (topic_of name) es)) (sym m.subscribed_topics)
                (insert-AreUnique self_id (topic_of name) [] tt),
            m.username ∙ same,
            λ differ. absurd (differ same),
          )
    | inr (other, y) ↦
        rw (y, (based_rest name d).0)
          (
            subst AreUnique (sym ((m.same_user u other).subscribed_topics)) (k.ids u),
            (m.same_user u other).username ∙ k.username u,
            λ _. (m.same_user u other).subscribed_topics,
          )
  ]

  made_globals :
      (made.users ≡ e.users ++ name ∷ [])
      × (made.topics ≡ (λ t. if eq_text name t then some (topic_of name) else e.topics t))
  unfolding made subscribe_to add_subscriber put_subscription set_user set_topic
  made_globals = rw ((based_rest name d).1, (based_rest name d).2, m.users, m.topics) (refl, refl)

  held_made :
      (q : TopicRef) (u id : Text)
      → lookup u ((made.object_at q).subscribers) ≡ some id
      → lookup id ((made.user_at u).subscribed_topics) ≡ some q
  held_made q u id h = elim (eq_ref-cases (topic_of name) q) [
    | inl (same, y) ↦ ground (
      arith,
      h,
      same,
      y,
      subscribers_made q u,
      subscriptions_made u id,
      eq_text_iff name u,
      eq_text_iff self_id id,
    )
    | inr (other, y) ↦ ground (
      arith,
      h,
      y,
      subscribers_made q u,
      subscriptions_made u id,
      eq_text_iff name u,
      k.held q u id,
      ap (lookup id) (k.unknown name new),
      lookup-nil {V = TopicRef} id,
    )
  ]

  pub made-IsLinked : IsLinked made
  unfolding mem_text
  made-IsLinked = record {
    unique = λ q. (made_object q).0;
    ids = λ u. (made_user u).0;
    named = λ q. (made_object q).1;
    owned = λ q u h. (made_object q).2 u h;
    mapped = λ t q h. ground (
      arith,
      eq_text_iff name t,
      k.mapped t q,
      h,
      ap (λ (f : Text → Option TopicRef). f t) made_globals.1,
    );
    username = λ u. (made_user u).1;
    unknown = λ u h. elim (eq_text-cases name u) [
      | inl (same, y) ↦
          absurd (ground (arith, h, y, made_globals.0, mem_text-append u e.users (name ∷ [])))
      | inr (other, y) ↦
          (made_user u).2 other
          ∙ k.unknown u (
              ground
                (arith, h, ap (mem_text u) made_globals.0, mem_text-append u e.users (name ∷ [])))
    ];
    held = held_made;
    foreign = λ u id q h own. ground (
      arith,
      h,
      own,
      subscriptions_made u id,
      eq_text_iff name u,
      eq_text_iff self_id id,
      k.foreign u id q,
    );
  }

pub create_user-IsLinked :
    (name password : Text) (c : ℕ) (e : Engine)
    → IsLinked e
    → mem_text name e.users ≡ false
    → IsLinked (create_user name password c e)
unfolding create_user set_topic_user based made
create_user-IsLinked name password c e k new =
    made-IsLinked name e (new_user name password c e) (new_user-Makes name password c e) k new

-- The users and the messages of the others.
inbox-made :
    (name : Text) (d : Engine) (u : Text)
    → inbox (subscribe_to (topic_of name) self_id name (based name d)) u ≡ inbox d u
unfolding subscribe_to add_subscriber put_subscription set_user set_topic based put_names inbox
inbox-made name d u = elim (eq_text-cases name u) [
  | inl (same, y) ↦ rw y (rw same refl)
  | inr (other, y) ↦ rw y refl
]

inbox-first :
    (name : Text) (v : User) (e : Engine) (u : Text)
    → name ≢ u
    → inbox (set_user name v e) u ≡ inbox e u
unfolding inbox set_user
inbox-first name v e u other = rw (eq_text-false name u other) refl

create_user_lem :
    (name password : Text) (c : ℕ) (e : Engine)
    → create_user name password c e
      ≡ subscribe_to (topic_of name) self_id name (based name (new_user name password c e))
unfolding create_user set_topic_user based
create_user_lem name password c e = refl

users-made :
    (name : Text) (d : Engine)
    → (subscribe_to (topic_of name) self_id name (based name d)).users ≡ d.users ++ name ∷ []
unfolding subscribe_to add_subscriber put_subscription set_user set_topic based put_names
users-made name d = refl

pub create_user_rest :
    (name password : Text) (c : ℕ) (e : Engine)
    → ((create_user name password c e).users ≡ e.users ++ name ∷ [])
      × ((u : Text) → name ≢ u → inbox (create_user name password c e) u ≡ inbox e u)
create_user_rest name password c e =
    let v = first_user name password c in
    rw (create_user_lem name password c e) (
      users-made name (new_user name password c e)
          ∙ ap (λ us. us ++ name ∷ []) (new_user-Makes name password c e).users,
      λ u other.
          inbox-made name (new_user name password c e) u
          ∙ ap (λ (x : Engine). inbox x u) (new_user_lem name password c e)
          ∙ inbox-flushed c name (set_user name v e) u
          ∙ inbox-first name v e u other,
    )
