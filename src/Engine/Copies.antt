-- ===== src/Engine/Copies.antt =====
-- Who gets a message that `Topic.send` and `TwitterEngine.send` post, in
-- twitterEngine/src/spl/twitter/engine.
use mathlib.Core.List.{append-nil}
use twitter_client_server.Prelude.{
  ◌≡◌, refl, Bool, true, false, Option, none, some, List, [], ◌∷◌, ◌++◌, arith, if◌then◌else◌, ◌∙◌,
}
use twitter_client_server.Prelude.Text.{Text, eq_text_iff, mem_text, lookup, AreUnique}
use twitter_client_server.Engine.{Message, TopicRef, Engine, set_topic, user_send}
use twitter_client_server.Engine.Calls.{
  excepted, deliver, count_message, topic_send, increment_mentions, increment_mentioned,
}
use twitter_client_server.Engine.Inbox.{inbox, inbox-user_send}

-- What the subscribers of a topic hold, as one copy for each user.
abbrev pub copy : Text → Text → Option Text → List Message
copy from text none = []
copy from text (some id) = record { destination = from; subscription_id = id; message = text } ∷ []

abbrev pub unless : Bool → List Message → List Message
unless true ms = []
unless false ms = ms

-- The copy that a user gets through a topic.
unfoldable pub copy_by : Engine → TopicRef → Text → Text → List Message
copy_by e r text u = copy ((e.object_at r).topic_name) text (lookup u ((e.object_at r).subscribers))

-- No user stands twice among the subscribers of a topic.
pub record HasOneEntryEach (e : Engine) : Type 0 where
  pub unique : (r : TopicRef) → AreUnique ((e.object_at r).subscribers)

abbrev pub letter : Text → Text → Text → Message
letter from text id = record { destination = from; subscription_id = id; message = text }

-- The loop of `Topic.send` gives each subscriber one copy, and nobody else any.
pub inbox-deliver :
    (from text : Text) (except : Option (List Text)) (subs : List (Text × Text)) (e : Engine)
    (u : Text)
    → AreUnique subs
    → inbox (deliver from text except subs e).0 u
      ≡ inbox e u ++ unless (excepted except u) (copy from text (lookup u subs))
unfolding deliver lookup
inbox-deliver from text except [] e u h = ground (arith, append-nil (inbox e u))
inbox-deliver from text except ((n, id) ∷ rest) e u h = ground (
  arith,
  inbox-deliver from text except rest e u h.1,
  inbox-deliver from text except rest (user_send (letter from text id) n e) u h.1,
  eq_text_iff n u,
  inbox-user_send (letter from text id) n e u,
  append-nil (inbox e u),
  append-nil (inbox e u ++ letter from text id ∷ []),
)

-- The names that it returns are those of the subscribers that were not excepted.
pub mem_text-deliver :
    (from text : Text) (except : Option (List Text)) (subs : List (Text × Text)) (e : Engine)
    (u : Text)
    → mem_text u (deliver from text except subs e).1 ≡ (
        if excepted except u then false else elim (lookup u subs) [ none ↦ false | some id ↦ true ])
unfolding deliver lookup mem_text
mem_text-deliver from text except [] e u = ground arith
mem_text-deliver from text except ((n, id) ∷ rest) e u = ground (
  arith,
  mem_text-deliver from text except rest e u,
  mem_text-deliver from text except rest (user_send (letter from text id) n e) u,
  eq_text_iff n u,
)

pub inbox-count_message :
    (r : TopicRef) (e : Engine) (u : Text) → inbox (count_message r e) u ≡ inbox e u
unfolding inbox count_message set_topic
inbox-count_message r e u = refl

pub inbox-increment_mentions :
    (r : TopicRef) (e : Engine) (u : Text) → inbox (increment_mentions r e) u ≡ inbox e u
unfolding inbox increment_mentions set_topic
inbox-increment_mentions r e u = refl

pub inbox-increment_mentioned :
    (r : TopicRef) (e : Engine) (u : Text) → inbox (increment_mentioned r e) u ≡ inbox e u
unfolding inbox increment_mentioned set_topic
inbox-increment_mentioned r e u = refl

-- `Topic.send` appends to each user's messages the copy that is the user's by the topic, and nothing
-- to those of a user whom it is told to leave out.
pub inbox-topic_send :
    (r : TopicRef) (text : Text) (except : Option (List Text)) (e : Engine) (u : Text)
    → HasOneEntryEach e
    → inbox (topic_send r text except e).0 u
      ≡ inbox e u ++ unless (excepted except u) (copy_by e r text u)
unfolding topic_send copy_by
inbox-topic_send r text except e u h =
    inbox-count_message r _ u
    ∙ inbox-deliver ((e.object_at r).topic_name) text except ((e.object_at r).subscribers) e u
        (h.unique r)
