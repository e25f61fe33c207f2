-- ===== src/Engine/Mentioned.antt =====
-- The copies of a post, with those of its mentions: `send` of
-- twitterEngine/src/spl/twitter/engine/TwitterEngine.java.
use mathlib.Core.List.{append_assoc, append-nil}
use twitter_client_server.Prelude.{
  ◌≡◌, refl, Bool, true, false, Option, none, some, List, [], ◌∷◌, ◌++◌, arith, ◌∙◌, sym, ap, subst,
}
use twitter_client_server.Prelude.Text.{Text, mem_text, lookup, AreUnique}
use twitter_client_server.Engine.{Message, TopicRef, Engine, set_topic}
use twitter_client_server.Engine.Calls.{
  deliver, topic_send, increment_mentions, increment_mentioned, send_mention, send_mentions,
  count_post,
}
use twitter_client_server.Engine.Mentions.{mentions}
use twitter_client_server.Engine.Post.{post_to}
use twitter_client_server.Engine.Inbox.{inbox}
use twitter_client_server.Engine.Frame.{
  Sends, topic_send-Sends, send_mention-Sends, increment_mentions-Sends,
}
use twitter_client_server.Engine.Copies.{
  copy, unless, copy_by, HasOneEntryEach, mem_text-deliver, inbox-increment_mentions,
  inbox-increment_mentioned, inbox-topic_send,
}

-- What a user who does not hold the poster's topic gets by the mentions: a copy for each mention of
-- a topic that the user holds.
unfoldable pub mention_copies : Engine → Text → List Text → Text → List Message
unfolding copy_by
mention_copies e text [] u = []
mention_copies e text (name ∷ rest) u =
    (elim (e.topics name) [ none ↦ [] | some t ↦ copy_by e t text u ])
    ++ mention_copies e text rest u

Sends-HasOneEntryEach : {d e : Engine} → Sends d e → HasOneEntryEach d → HasOneEntryEach e
Sends-HasOneEntryEach {d} {e} s h = record {
  unique = λ r. subst AreUnique (sym ((s.same_topic r).subscribers)) (h.unique r);
}

copy_by-Sends :
    {d e : Engine} (r : TopicRef) (text u : Text)
    → Sends d e
    → copy_by e r text u ≡ copy_by d r text u
unfolding copy_by
copy_by-Sends r text u s = rw ((s.same_topic r).topic_name, (s.same_topic r).subscribers) refl

mention_copies-Sends :
    {d e : Engine} (text : Text) (names : List Text) (u : Text)
    → Sends d e
    → mention_copies e text names u ≡ mention_copies d text names u
unfolding mention_copies
mention_copies-Sends text [] u s = refl
mention_copies-Sends {d} {e} text (name ∷ rest) u s =
    rw (s.topics, mention_copies-Sends text rest u s)
      (ap (λ ms. ms ++ mention_copies d text rest u) (by (d.topics name)))
  where
    by :
        (o : Option TopicRef)
        → elim o as (λ (x : Option TopicRef). List Message) [
          | none ↦ []
          | some t ↦ copy_by e t text u
        ]
          ≡ elim o as (λ (x : Option TopicRef). List Message) [
            | none ↦ []
            | some t ↦ copy_by d t text u
          ]
    by none = refl
    by (some t) = copy_by-Sends t text u s

unless-append : (b : Bool) (xs ys : List Message) → unless b (xs ++ ys) ≡ unless b xs ++ unless b ys
unless-append true xs ys = refl
unless-append false xs ys = refl

inbox-send_mention :
    (r : TopicRef) (text : Text) (delivered : List Text) (name : Text) (e : Engine) (u : Text)
    → HasOneEntryEach e
    → inbox (send_mention r text delivered name e) u
      ≡ inbox e u ++ unless (mem_text u delivered) (mention_copies e text (name ∷ []) u)
unfolding send_mention mention_copies increment_mentions set_topic
inbox-send_mention r text delivered name e u h = by (e.topics name)
  where
    c : Engine
    c = increment_mentions r e

    by :
        (o : Option TopicRef)
        → inbox
            (elim o as (λ (x : Option TopicRef). Engine) [
              | none ↦ c
              | some t ↦ increment_mentioned t (topic_send t text (some delivered) c).0
            ])
            u
          ≡ inbox e u
            ++ unless (mem_text u delivered) (
                (elim o as (λ (x : Option TopicRef). List Message) [
                  | none ↦ []
                  | some t ↦ copy_by e t text u
                ])
                ++ [])
    by none = ground (arith, inbox-increment_mentions r e u, append-nil (inbox e u))
    by (some t) =
        inbox-increment_mentioned t _ u
        ∙ inbox-topic_send t text (some delivered) c u
            (Sends-HasOneEntryEach (increment_mentions-Sends r e) h)
        ∙ rw
            (
              inbox-increment_mentions r e u,
              copy_by-Sends t text u (increment_mentions-Sends r e),
              append-nil,
            )
            refl

mention_copies-nil : (e : Engine) (text u : Text) → mention_copies e text [] u ≡ []
unfolding mention_copies
mention_copies-nil e text u = refl

mention_copies-cons :
    (e : Engine) (text name : Text) (rest : List Text) (u : Text)
    → mention_copies e text (name ∷ rest) u
      ≡ mention_copies e text (name ∷ []) u ++ mention_copies e text rest u
unfolding mention_copies
mention_copies-cons e text name rest u = rw append-nil refl

inbox-send_mentions :
    (r : TopicRef) (text : Text) (delivered names : List Text) (e : Engine) (u : Text)
    → HasOneEntryEach e
    → inbox (send_mentions r text delivered names e) u
      ≡ inbox e u ++ unless (mem_text u delivered) (mention_copies e text names u)
unfolding send_mentions
inbox-send_mentions r text delivered [] e u h =
    rw (mention_copies-nil e text u) (by (mem_text u delivered))
  where
    by : (b : Bool) → inbox e u ≡ inbox e u ++ unless b []
    by true = sym (append-nil (inbox e u))
    by false = sym (append-nil (inbox e u))
inbox-send_mentions r text delivered (name ∷ rest) e u h =
    let s = send_mention-Sends r text delivered name e in
    inbox-send_mentions r text delivered rest (send_mention r text delivered name e) u
      (Sends-HasOneEntryEach s h)
    ∙ rw
        (
          inbox-send_mention r text delivered name e u h,
          mention_copies-Sends text rest u s,
          mention_copies-cons e text name rest u,
          unless-append,
        )
        (append_assoc (inbox e u)
          (unless (mem_text u delivered) (mention_copies e text (name ∷ []) u))
          (unless (mem_text u delivered) (mention_copies e text rest u)))

-- The messages that a post adds to those of a user: one copy through the poster's topic, or else one
-- for each mention of a topic that the user holds.
unfoldable pub post_copies : Engine → TopicRef → Text → Text → List Message
unfolding copy_by
post_copies e r text u = elim (lookup u ((e.object_at r).subscribers)) [
  | none ↦ mention_copies e text (mentions text) u
  | some id ↦ copy ((e.object_at r).topic_name) text (some id)
]

-- A post to the own topic adds to what each user was sent or has waiting just one copy if the user
-- follows the topic, else a copy for each mention of a topic that the user follows, in the order of
-- the mentions. No topic is to list a subscriber twice.
pub inbox-post_to :
    (r : TopicRef) (text : Text) (e : Engine) (u : Text)
    → HasOneEntryEach e
    → inbox (post_to r text e) u ≡ inbox e u ++ post_copies e r text u
unfolding post_to post_copies topic_send count_post send_mentions inbox
inbox-post_to r text e u h =
    let subs = (e.object_at r).subscribers in
    let from = (e.object_at r).topic_name in
    let sent = topic_send-Sends r text none e in
    inbox-send_mentions r text (deliver from text none subs e).1 (mentions text)
      (topic_send r text none e).0 u (Sends-HasOneEntryEach sent h)
    ∙ rw
        (
          inbox-topic_send r text none e u h,
          mem_text-deliver from text none subs e u,
          mention_copies-Sends text (mentions text) u sent,
          copy_by,
        )
        (by (inbox e u) (lookup u subs))
  where
    by :
        (ms : List Message) (o : Option Text)
        → (ms ++ copy ((e.object_at r).topic_name) text o)
            ++ unless
                (elim o as (λ (x : Option Text). Bool) [ none ↦ false | some id ↦ true ])
                (mention_copies e text (mentions text) u)
          ≡ ms ++ elim o as (λ (x : Option Text). List Message) [
            | none ↦ mention_copies e text (mentions text) u
            | some id ↦ copy ((e.object_at r).topic_name) text (some id)
          ]
    by ms none = rw append-nil refl
    by ms (some id) = append-nil _
