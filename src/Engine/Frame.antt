-- ===== src/Engine/Frame.antt =====
-- What the methods of User and Topic and the sends of the engine leave alone, in
-- twitterEngine/src/spl/twitter/engine.
use twitter_client_server.Prelude.{
  ℕ, ◌≡◌, ◌≢◌, refl, Bool, true, false, Option, none, some, List, [], ◌∷◌, arith, if◌then◌else◌,
  inl, inr, ◌⊎◌, ◌∙◌, ap,
}
use twitter_client_server.Prelude.Text.{Text, eq_text-cases}
use twitter_client_server.Engine.{
  Message, TopicRef, server_object, topic_of, User, Topic, Engine, eq_ref, set_user, set_topic,
  set_protocol, flush_to, flush_messages, enqueue, user_send,
}
use twitter_client_server.Engine.Post.{post_to}
use twitter_client_server.Engine.Calls.{
  excepted, deliver, count_message, topic_send, increment_mentions, increment_mentioned,
  send_mention, send_mentions, count_post,
}

pub eq_ref-cases :
    (q r : TopicRef) → ((q ≡ r) × (eq_ref q r ≡ true)) ⊎ ((q ≢ r) × (eq_ref q r ≡ false))
unfolding eq_ref
eq_ref-cases server_object server_object = inl (refl, refl)
eq_ref-cases server_object (topic_of n) = inr (λ e. cc, refl)
eq_ref-cases (topic_of m) server_object = inr (λ e. cc, refl)
eq_ref-cases (topic_of m) (topic_of n) = elim (eq_text-cases m n) [
  | inl (e, y) ↦ inl (ap topic_of e, y)
  | inr (h, y) ↦ inr (λ e. h (cc), y)
]

-- What a send keeps of a user, and a change of connection too.
pub record SameUser (v w : User) : Type 0 where
  pub username : w.username ≡ v.username
  pub password : w.password ≡ v.password
  pub subscribed_topics : w.subscribed_topics ≡ v.subscribed_topics

-- What a send keeps of a topic: all but the counters.
pub record SameTopic (t u : Topic) : Type 0 where
  pub topic_name : u.topic_name ≡ t.topic_name
  pub topic_user : u.topic_user ≡ t.topic_user
  pub subscribers : u.subscribers ≡ t.subscribers

pub record Sends (e d : Engine) : Type 0 where
  pub users : d.users ≡ e.users
  pub topics : d.topics ≡ e.topics
  pub stopped : d.stopped ≡ e.stopped
  pub same_user : (n : Text) → SameUser (e.user_at n) (d.user_at n)
  pub same_topic : (r : TopicRef) → SameTopic (e.object_at r) (d.object_at r)

pub Sends-refl : (e : Engine) → Sends e e
Sends-refl e = record {
  users = refl;
  topics = refl;
  stopped = refl;
  same_user = λ n. record { username = refl; password = refl; subscribed_topics = refl };
  same_topic = λ r. record { topic_name = refl; topic_user = refl; subscribers = refl };
}

SameUser-trans : {u v w : User} → SameUser u v → SameUser v w → SameUser u w
SameUser-trans a b = ground arith

SameTopic-trans : {u v w : Topic} → SameTopic u v → SameTopic v w → SameTopic u w
SameTopic-trans a b = ground arith

pub Sends-trans : {c d e : Engine} → Sends c d → Sends d e → Sends c e
Sends-trans a b = record {
  users = b.users ∙ a.users;
  topics = b.topics ∙ a.topics;
  stopped = b.stopped ∙ a.stopped;
  same_user = λ n. SameUser-trans (a.same_user n) (b.same_user n);
  same_topic = λ r. SameTopic-trans (a.same_topic r) (b.same_topic r);
}

set_user-Sends :
    (n : Text) (v : User) (e : Engine) → SameUser (e.user_at n) v → Sends e (set_user n v e)
unfolding set_user
set_user-Sends n v e same = record {
  users = refl;
  topics = refl;
  stopped = refl;
  same_user = λ k. elim (eq_text-cases n k) [
    | inl (here, y) ↦ rw y (rw (← here) same)
    | inr (other, y) ↦ rw y ((Sends-refl e).same_user k)
  ];
  same_topic = (Sends-refl e).same_topic;
}

set_topic-Sends :
    (r : TopicRef) (t : Topic) (e : Engine)
    → SameTopic (e.object_at r) t
    → Sends e (set_topic r t e)
unfolding set_topic
set_topic-Sends r t e same = record {
  users = refl;
  topics = refl;
  stopped = refl;
  same_user = (Sends-refl e).same_user;
  same_topic = λ q. elim (eq_ref-cases r q) [
    | inl (here, y) ↦ rw y (rw (← here) same)
    | inr (other, y) ↦ rw y ((Sends-refl e).same_topic q)
  ];
}

flush_to-Sends : (p : Option ℕ) (n : Text) (e : Engine) → Sends e (flush_to p n e)
unfolding flush_to
flush_to-Sends none n e = Sends-refl e
flush_to-Sends (some c) n e =
    let s = set_user-Sends n (record (e.user_at n) { messages = [] }) e (ground arith) in
    record {
      users = s.users;
      topics = s.topics;
      stopped = s.stopped;
      same_user = s.same_user;
      same_topic = s.same_topic;
    }

pub flush_messages-Sends : (n : Text) (e : Engine) → Sends e (flush_messages n e)
unfolding flush_messages
flush_messages-Sends n e = flush_to-Sends ((e.user_at n).protocol) n e

pub user_send-Sends : (m : Message) (n : Text) (e : Engine) → Sends e (user_send m n e)
unfolding user_send enqueue
user_send-Sends m n e =
    Sends-trans (set_user-Sends n _ e (ground arith)) (flush_messages-Sends n (enqueue m n e))

pub deliver-Sends :
    (from text : Text) (except : Option (List Text)) (subs : List (Text × Text)) (e : Engine)
    → Sends e (deliver from text except subs e).0
unfolding deliver
deliver-Sends from text except [] e = Sends-refl e
deliver-Sends from text except ((n, id) ∷ rest) e =
    Sends-trans (if-Sends (excepted except n) (user_send-Sends _ n e))
      (deliver-Sends from text except rest _)
  where
    if-Sends : (b : Bool) {d : Engine} → Sends e d → Sends e (if b then e else d)
    if-Sends true s = Sends-refl e
    if-Sends false s = s

count_message-Sends : (r : TopicRef) (e : Engine) → Sends e (count_message r e)
unfolding count_message
count_message-Sends r e = set_topic-Sends r _ e (ground arith)

pub topic_send-Sends :
    (r : TopicRef) (text : Text) (except : Option (List Text)) (e : Engine)
    → Sends e (topic_send r text except e).0
unfolding topic_send
topic_send-Sends r text except e =
    Sends-trans (deliver-Sends _ text except _ e) (count_message-Sends r _)

pub increment_mentions-Sends : (r : TopicRef) (e : Engine) → Sends e (increment_mentions r e)
unfolding increment_mentions
increment_mentions-Sends r e = set_topic-Sends r _ e (ground arith)

pub increment_mentioned-Sends : (r : TopicRef) (e : Engine) → Sends e (increment_mentioned r e)
unfolding increment_mentioned
increment_mentioned-Sends r e = set_topic-Sends r _ e (ground arith)

pub send_mention-Sends :
    (r : TopicRef) (text : Text) (delivered : List Text) (name : Text) (e : Engine)
    → Sends e (send_mention r text delivered name e)
unfolding send_mention
send_mention-Sends r text delivered name e =
    Sends-trans (increment_mentions-Sends r e)
      (by (increment_mentions r e) ((increment_mentions r e).topics name))
  where
    by :
        (c : Engine) (o : Option TopicRef)
        → Sends c (elim o as (λ (x : Option TopicRef). Engine) [
          | none ↦ c
          | some t ↦ increment_mentioned t (topic_send t text (some delivered) c).0
        ])
    by c none = Sends-refl c
    by c (some t) =
        Sends-trans (topic_send-Sends t text (some delivered) c) (increment_mentioned-Sends t _)

pub send_mentions-Sends :
    (r : TopicRef) (text : Text) (delivered names : List Text) (e : Engine)
    → Sends e (send_mentions r text delivered names e)
unfolding send_mentions
send_mentions-Sends r text delivered [] e = Sends-refl e
send_mentions-Sends r text delivered (name ∷ rest) e =
    Sends-trans (send_mention-Sends r text delivered name e)
      (send_mentions-Sends r text delivered rest _)

pub set_protocol-Sends : (p : Option ℕ) (n : Text) (e : Engine) → Sends e (set_protocol p n e)
unfolding set_protocol
set_protocol-Sends p n e = set_user-Sends n _ e (ground arith)

pub count_post-Sends : (e : Engine) → Sends e (count_post e)
unfolding count_post
count_post-Sends e =
    let s = Sends-refl e in
    record {
      users = refl;
      topics = refl;
      stopped = refl;
      same_user = s.same_user;
      same_topic = s.same_topic;
    }

pub post_to-Sends : (r : TopicRef) (text : Text) (e : Engine) → Sends e (post_to r text e)
unfolding post_to
post_to-Sends r text e =
    Sends-trans (topic_send-Sends r text none e)
      (Sends-trans (send_mentions-Sends r text _ _ _) (count_post-Sends _))
