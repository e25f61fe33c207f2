-- ===== src/Engine.antt =====
-- The message engine: User, Topic and TwitterEngine of twitterEngine/src/spl/twitter/engine. Users
-- and topics are objects in a store, and the maps of the engine hold references to them. A call
-- that throws a StompException answers `failed` with its two texts.
pub mod Calls
pub mod Copies
pub mod Mentioned
pub mod Examples
pub mod Faults
pub mod Frame
pub mod Inbox
pub mod Linked
pub mod Links
pub mod Unlink
pub mod Mentions
pub mod Post
pub mod Posted
pub mod Reset
pub mod Login
pub mod Create
pub mod Created
pub mod Sound
use twitter_client_server.Prelude.{
  ℕ, ◌+◌, ◌-◌, ◌≡◌, Bool, true, false, not, ◌&&◌, Option, none, some, List, [], ◌∷◌, ◌++◌, ltb,
  if◌then◌else◌,
}
use twitter_client_server.Prelude.Text.{Text, codes, eq_text, mem_text, lookup, insert, remove}

pub record Message : Type 0 where
  pub destination : Text
  pub subscription_id : Text
  pub message : Text

-- Which Topic object: the one of the engine's constructor, or the one made with a user.
pub data TopicRef : Type 0 where
  server_object : TopicRef
  topic_of : Text → TopicRef

unfoldable pub eq_ref : TopicRef → TopicRef → Bool
eq_ref server_object server_object = true
eq_ref server_object (topic_of n) = false
eq_ref (topic_of m) server_object = false
eq_ref (topic_of m) (topic_of n) = eq_text m n

-- `protocol` is the connection that the user's frames go to, none where the field is null.
pub record User : Type 0 where
  pub username : Text
  pub password : Text
  pub protocol : Option ℕ
  pub messages : List Message
  pub subscribed_topics : List (Text × TopicRef)

-- `subscribers` holds the username of each subscriber with the id of the subscription.
pub record Topic : Type 0 where
  pub topic_name : Text
  pub topic_user : Option Text
  pub subscribers : List (Text × Text)
  pub total_messages_posted : ℕ
  pub total_mentions : ℕ
  pub total_mentioned : ℕ

-- A call of `protocol.sendMessage`, with the user whose flush made it.
pub record Delivery : Type 0 where
  pub to : Text
  pub connection : ℕ
  pub content : Message

-- `stopped`: the timer is cancelled and the listener killed.
pub record Engine : Type 0 where
  pub users : List Text
  pub user_at : Text → User
  pub topics : Text → Option TopicRef
  pub object_at : TopicRef → Topic
  pub total_messages_posted : ℕ
  pub last_total : ℕ
  pub max_messages_per_period : ℕ
  pub stopped : Bool
  pub sent : List Delivery

pub data Reply : Type 0 where
  done : Reply
  failed : Text → Text → Reply
  null_pointer : Reply

abbrev pub self_id : Text
self_id = codes "0"

abbrev pub server_topic_name : Text
server_topic_name = codes "server"

abbrev pub new_topic : Text → Topic
new_topic name = record {
  topic_name = name;
  topic_user = none;
  subscribers = [];
  total_messages_posted = 0;
  total_mentions = 0;
  total_mentioned = 0;
}

abbrev pub ref_name : TopicRef → Text
ref_name server_object = server_topic_name
ref_name (topic_of n) = n

-- The store: a write to one object.
unfoldable pub set_user : Text → User → Engine → Engine
set_user n u e = record e { user_at = λ k. if eq_text n k then u else e.user_at k }

unfoldable pub set_topic : TopicRef → Topic → Engine → Engine
set_topic r t e = record e { object_at = λ q. if eq_ref r q then t else e.object_at q }

-- The methods of User, on the user called `n`.

unfoldable pub is_connected : User → Bool
is_connected u = elim u.protocol [ none ↦ false | some c ↦ true ]

unfoldable pub is_approved : Text → User → Bool
is_approved password u = eq_text password u.password

unfoldable pub set_protocol : Option ℕ → Text → Engine → Engine
set_protocol p n e = set_user n (record (e.user_at n) { protocol = p }) e

unfoldable pub logout : Text → Engine → Engine
logout n e = set_protocol none n e

-- The loop of `flushMessages` polls until the queue is empty.
unfoldable pub poll_all : Text → ℕ → List Message → List Delivery
poll_all n c [] = []
poll_all n c (m ∷ q) = record { to = n; connection = c; content = m } ∷ poll_all n c q

unfoldable pub flush_to : Option ℕ → Text → Engine → Engine
flush_to none n e = e
flush_to (some c) n e = record (set_user n (record (e.user_at n) { messages = [] }) e) {
  sent = e.sent ++ poll_all n c ((e.user_at n).messages);
}

unfoldable pub flush_messages : Text → Engine → Engine
flush_messages n e = flush_to ((e.user_at n).protocol) n e

unfoldable pub enqueue : Message → Text → Engine → Engine
enqueue m n e = set_user n (record (e.user_at n) { messages = (e.user_at n).messages ++ m ∷ [] }) e

unfoldable pub user_send : Message → Text → Engine → Engine
user_send m n e = flush_messages n (enqueue m n e)

unfoldable pub has_subscription : Text → User → Bool
has_subscription id u = elim (lookup id u.subscribed_topics) [ none ↦ false | some r ↦ true ]

unfoldable pub add_subscriber : Text → Text → TopicRef → Engine → Engine
add_subscriber n id r e =
    set_topic r (record (e.object_at r) { subscribers = insert n id ((e.object_at r).subscribers) })
      e

unfoldable pub put_subscription : Text → TopicRef → Text → Engine → Engine
put_subscription id r n e =
    set_user n
      (record (e.user_at n) { subscribed_topics = insert id r ((e.user_at n).subscribed_topics) }) e

unfoldable pub subscribe_to : TopicRef → Text → Text → Engine → Engine
subscribe_to r id n e = add_subscriber n id r (put_subscription id r n e)

abbrev pub is_topic_user : Text → Topic → Bool
is_topic_user n t = elim t.topic_user [ none ↦ false | some m ↦ eq_text m n ]

abbrev pub is_subscribed : Text → Topic → Bool
is_subscribed n t = elim (lookup n t.subscribers) [ none ↦ false | some id ↦ true ]

-- `Topic.removeSubscriber`
unfoldable pub remove_subscriber : Text → TopicRef → Engine → Engine × Reply
remove_subscriber n r e =
    if is_subscribed n (e.object_at r)
    then if is_topic_user n (e.object_at r)
      then (e, failed (codes "Cannot unsubscribe") (codes "You cannot unsubscribe from yourself."))
      else (
        set_topic r
            (record (e.object_at r) { subscribers = remove n ((e.object_at r).subscribers) }) e,
        done,
      )
    else (e, done)

unfoldable pub drop_subscription : Text → Text → Engine → Engine
drop_subscription id n e =
    set_user n
      (record (e.user_at n) { subscribed_topics = remove id ((e.user_at n).subscribed_topics) }) e

-- `User.unsubscribe`; a missing id is a null topic.
unfoldable pub unsubscribe_user : Text → Text → Engine → Engine × Reply
unsubscribe_user id n e = elim (lookup id ((e.user_at n).subscribed_topics)) [
  | none ↦ (e, null_pointer)
  | some r ↦
      if eq_text ((e.object_at r).topic_name) ((e.user_at n).username)
      then (e, failed (codes "Cannot unsubscribe") (codes "You cannot unsubscribe from yourself."))
      else remove_subscriber n r (drop_subscription id n e)
]

-- `resetSubscriptionsInfo` walks the entries and stops at the first exception.
unfoldable pub reset_entries : List (Text × TopicRef) → Text → Engine → Engine
reset_entries [] n e = e
reset_entries ((id, r) ∷ rest) n e =
    let (e', reply) = unsubscribe_user id n e in
    let next = reset_entries rest n in
    if eq_text id self_id
    then next e
    else elim reply [ done ↦ next e' | failed a b ↦ e' | null_pointer ↦ e' ]

unfoldable pub reset_subscriptions_info : Text → Engine → Engine
reset_subscriptions_info n e = reset_entries ((e.user_at n).subscribed_topics) n e

-- `User.login`
unfoldable pub login : Text → ℕ → Text → Engine → Engine × Bool
login password c n e =
    if is_approved password (e.user_at n)
    then (reset_subscriptions_info n (flush_messages n (set_protocol (some c) n e)), true)
    else (e, false)
