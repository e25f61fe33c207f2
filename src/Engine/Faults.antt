-- ===== src/Engine/Faults.antt =====
-- Where the engine of twitterEngine/src/spl/twitter/engine does not do what it means to.
use twitter_client_server.Prelude.{
  ℕ, ◌≡◌, ◌≢◌, refl, true, none, some, [], ◌∷◌, ◌++◌, arith, inl, inr, ◌∙◌, ap,
}
use twitter_client_server.Prelude.Text.{Text, codes, mem_text, lookup, eq_text_refl, eq_text-false}
use twitter_client_server.Engine.{
  Message, TopicRef, Engine, set_protocol, set_user, user_send, enqueue, flush_messages, flush_to,
  poll_all, is_connected, ref_name, eq_ref,
}
use twitter_client_server.Engine.Calls.{refused, connect, connect_known, unsubscribe}
use twitter_client_server.Engine.Mentions.{mentions}
use twitter_client_server.Engine.Frame.{eq_ref-cases}
use twitter_client_server.Engine.Sound.{IsLinked}
use twitter_client_server.Engine.Unlink.{lookup-without_link, subscriptions-without_link}
use twitter_client_server.Engine.Copies.{copy_by, HasOneEntryEach}
use twitter_client_server.Engine.Mentioned.{post_copies, mention_copies, inbox-post_to}
use twitter_client_server.Engine.Inbox.{inbox}
use twitter_client_server.Engine.Post.{post_to}
use twitter_client_server.Engine.Linked.{unsubscribe_engine}

eq_ref_refl : (r : TopicRef) → eq_ref r r ≡ true
eq_ref_refl r = elim (eq_ref-cases r r) [ inl (same, y) ↦ y | inr (other, y) ↦ absurd (other refl) ]

-- A user who holds a topic under two ids and gives up one of them is no longer among the topic's
-- subscribers, though the other subscription stays.
pub unsubscribe_one_of_two :
    (id other user : Text) (r : TopicRef) (e : Engine)
    → IsLinked e
    → lookup id ((e.user_at user).subscribed_topics) ≡ some r
    → lookup other ((e.user_at user).subscribed_topics) ≡ some r
    → id ≢ other
    → ref_name r ≢ user
    → (lookup other (((unsubscribe id user e).0.user_at user).subscribed_topics) ≡ some r)
      × (lookup user (((unsubscribe id user e).0.object_at r).subscribers) ≡ none)
unsubscribe_one_of_two id other user r e k held also differ foreign =
    rw (unsubscribe_engine id user e r k held foreign) (
      subscriptions-without_link r id user e user other
          ∙ rw (eq_text_refl user, eq_text-false id other differ) also,
      lookup-without_link r id user e r user ∙ rw (eq_ref_refl r, eq_text_refl user) refl,
    )

-- A user who holds the topics of two mentioned users, and not the poster's, gets a post twice: what
-- went out for the first mention is not left out for the second. No topic is to list a subscriber
-- twice.
pub post_copies_twice :
    (r s t : TopicRef) (text first second u id other : Text) (e : Engine)
    → mentions text ≡ first ∷ second ∷ []
    → e.topics first ≡ some s
    → e.topics second ≡ some t
    → lookup u ((e.object_at r).subscribers) ≡ none
    → lookup u ((e.object_at s).subscribers) ≡ some id
    → lookup u ((e.object_at t).subscribers) ≡ some other
    → HasOneEntryEach e
    → inbox (post_to r text e) u
      ≡ inbox e u
        ++ record { destination = (e.object_at s).topic_name; subscription_id = id; message = text }
          ∷ record {
            destination = (e.object_at t).topic_name;
            subscription_id = other;
            message = text;
          }
          ∷ []
unfolding post_copies mention_copies copy_by
post_copies_twice r s t text first second u id other e named one two not_poster held also single =
    inbox-post_to r text e u single
    ∙ ap (λ ms. inbox e u ++ ms) (ground (arith, named, one, two, not_poster, held, also))

connect_connected :
    (name passcode : Text) (c : ℕ) (e : Engine)
    → mem_text name e.users ≡ true
    → is_connected (e.user_at name) ≡ true
    → connect name passcode c e
      ≡ (set_protocol (some c) name e, refused (codes "Already logged in") none)
unfolding connect connect_known
connect_connected name passcode c e known on = rw (known, on) refl

sent-user_send :
    (m : Message) (name : Text) (c : ℕ) (e : Engine)
    → (user_send m name (set_protocol (some c) name e)).sent
      ≡ e.sent ++ poll_all name c ((e.user_at name).messages ++ m ∷ [])
unfolding user_send enqueue flush_messages flush_to set_protocol set_user
sent-user_send m name c e = rw (eq_text_refl name) (rw (eq_text_refl name) refl)

-- Whoever names a user that is logged in, with any password, is refused; but the engine hands the
-- user's next message, with those that wait, to the refused connection.
pub connect_takes_over :
    (name passcode : Text) (c : ℕ) (m : Message) (e : Engine)
    → mem_text name e.users ≡ true
    → is_connected (e.user_at name) ≡ true
    → ((connect name passcode c e).1 ≡ refused (codes "Already logged in") none)
      × ((user_send m name (connect name passcode c e).0).sent
          ≡ e.sent ++ poll_all name c ((e.user_at name).messages ++ m ∷ []))
connect_takes_over name passcode c m e known on =
    rw (connect_connected name passcode c e known on) (refl, sent-user_send m name c e)
