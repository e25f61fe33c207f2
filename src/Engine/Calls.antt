-- ===== src/Engine/Calls.antt =====
-- The calls of TwitterEngine, in twitterEngine/src/spl/twitter/engine/TwitterEngine.java, with
-- `Topic.send` and the search for mentions that a post makes.
use twitter_client_server.Prelude.{
  ℕ, ◌+◌, ◌-◌, ◌%◌, ◌/◌, Bool, false, Option, none, some, List, [], ◌∷◌, ◌++◌, ltb, if◌then◌else◌,
}
use twitter_client_server.Prelude.Text.{Text, codes, eq_text, mem_text}
use twitter_client_server.Engine.{
  Message, TopicRef, server_object, topic_of, User, Engine, Reply, done, failed, self_id,
  server_topic_name, new_topic, ref_name, set_user, set_topic, set_protocol, is_connected,
  user_send, has_subscription, add_subscriber, subscribe_to, unsubscribe_user, login,
}

-- The engine before its first call; the store is blank where nothing is made yet.
abbrev pub blank_user : Text → User
blank_user n = record {
  username = n;
  password = [];
  protocol = none;
  messages = [];
  subscribed_topics = [];
}

abbrev pub new_engine : Engine
new_engine = record {
  users = [];
  user_at = blank_user;
  topics = λ n. if eq_text n server_topic_name then some server_object else none;
  object_at = λ r. new_topic (ref_name r);
  total_messages_posted = 0;
  last_total = 0;
  max_messages_per_period = 0;
  stopped = false;
  sent = [];
}

-- AuthorizationResult
pub data Authorization : Type 0 where
  authorized : Text → Authorization
  refused : Text → Option Text → Authorization

unfoldable pub set_topic_user : Text → TopicRef → Engine → Engine
set_topic_user n r e =
    subscribe_to r self_id n
      (add_subscriber n self_id r (set_topic r (record (e.object_at r) { topic_user = some n }) e))

-- `new User(login, password, protocol)`, whose constructor logs in.
unfoldable pub new_user : Text → Text → ℕ → Engine → Engine
new_user name password c e =
    let made =
      set_user name (record (blank_user name) { password = password; protocol = some c }) e in
    (login password c name made).0

unfoldable pub put_names : Text → TopicRef → Engine → Engine
put_names name r e = record e {
  users = e.users ++ name ∷ [];
  topics = λ k. if eq_text name k then some r else e.topics k;
}

unfoldable pub create_user : Text → Text → ℕ → Engine → Engine
create_user name password c e = set_topic_user name (topic_of name) (
    set_topic (topic_of name) (new_topic name)
      (put_names name (topic_of name) (new_user name password c e)))

unfoldable pub connect_known : Text → Text → ℕ → Engine → Engine × Authorization
connect_known name password c e =
    let (e', approved) = login password c name e in
    if is_connected (e.user_at name)
    then (set_protocol (some c) name e, refused (codes "Already logged in") none)
    else if approved
    then (e', authorized name)
    else (e', refused (codes "Login Error") (some (codes "Password is wrong")))

unfoldable pub connect : Text → Text → ℕ → Engine → Engine × Authorization
connect name password c e =
    if mem_text name e.users
    then connect_known name password c e
    else (create_user name password c e, authorized name)

unfoldable pub subscribe : Text → Text → Text → Engine → Engine × Reply
subscribe id name user e =
    if eq_text name ((e.user_at user).username)
    then (e, failed (codes "Subscribe") (codes "You cannot following on yourself."))
    else elim (e.topics name) [
      | none ↦ (e, failed (codes "Subscribe") (codes "Topic was not found."))
      | some r ↦
          if has_subscription id (e.user_at user)
          then (e, failed (codes "Subscribe") (codes "Already Following"))
          else (subscribe_to r id user e, done)
    ]

unfoldable pub unsubscribe : Text → Text → Engine → Engine × Reply
unsubscribe id user e =
    if has_subscription id (e.user_at user) then unsubscribe_user id user e else (
      e,
      failed (codes "Unsubscription error") (codes "User does not have subscription id #" ++ id),
    )

-- `Topic.send`: the subscribers in turn, and the names of those it delivered to.
abbrev pub excepted : Option (List Text) → Text → Bool
excepted none n = false
excepted (some names) n = mem_text n names

unfoldable pub deliver :
    Text → Text → Option (List Text) → List (Text × Text) → Engine → Engine × List Text
deliver from text except [] e = (e, [])
deliver from text except ((n, id) ∷ rest) e =
    let m : Message = record { destination = from; subscription_id = id; message = text } in
    let skip = excepted except n in
    let (e', names) = deliver from text except rest (if skip then e else user_send m n e) in
    (e', if skip then names else n ∷ names)

-- Java's `int`, kept as the number of its bits: `+` and `-` wrap, and `>` reads the sign.
abbrev pub int_range : ℕ
int_range = 4294967296

abbrev pub add_int : ℕ → ℕ → ℕ
add_int a b = (a + b) % int_range

abbrev pub sub_int : ℕ → ℕ → ℕ
sub_int a b = (a + (int_range - b)) % int_range

abbrev pub less_int : ℕ → ℕ → Bool
less_int a b = ltb (add_int a (int_range / 2)) (add_int b (int_range / 2))

unfoldable pub count_message : TopicRef → Engine → Engine
count_message r e =
    set_topic r
      (record (e.object_at r) {
        total_messages_posted = add_int (e.object_at r).total_messages_posted 1;
      })
      e

unfoldable pub topic_send : TopicRef → Text → Option (List Text) → Engine → Engine × List Text
topic_send r text except e =
    let t = e.object_at r in
    let (e', names) = deliver t.topic_name text except t.subscribers e in
    (count_message r e', names)

unfoldable pub increment_mentions : TopicRef → Engine → Engine
increment_mentions r e =
    set_topic r
      (record (e.object_at r) { total_mentions = add_int (e.object_at r).total_mentions 1 }) e

unfoldable pub increment_mentioned : TopicRef → Engine → Engine
increment_mentioned r e =
    set_topic r
      (record (e.object_at r) { total_mentioned = add_int (e.object_at r).total_mentioned 1 }) e

-- One round of `while (m.find())`.
unfoldable pub send_mention : TopicRef → Text → List Text → Text → Engine → Engine
send_mention destination text delivered name e =
    let counted = increment_mentions destination e in
    elim (counted.topics name) [
      | none ↦ counted
      | some t ↦ increment_mentioned t (topic_send t text (some delivered) counted).0
    ]

unfoldable pub send_mentions : TopicRef → Text → List Text → List Text → Engine → Engine
send_mentions destination text delivered [] e = e
send_mentions destination text delivered (name ∷ rest) e =
    send_mentions destination text delivered rest (send_mention destination text delivered name e)

unfoldable pub count_post : Engine → Engine
count_post e = record e { total_messages_posted = add_int e.total_messages_posted 1 }

-- The timer task that runs each 5 seconds.
unfoldable pub sample : Engine → Engine
sample e =
    let in_period = sub_int e.total_messages_posted e.last_total in
    if e.stopped then e else record e {
      last_total = e.total_messages_posted;
      max_messages_per_period =
          if less_int e.max_messages_per_period in_period
          then in_period
          else e.max_messages_per_period;
    }
