-- ===== src/Engine/Sound.antt =====
-- What holds in every state of the engine of twitterEngine/src/spl/twitter/engine: the two sides of
-- a subscription, in User.java and in Topic.java, fit together.
use twitter_client_server.Prelude.{◌≡◌, refl, false, Option, some, [], arith, ◌∙◌, sym, ap, subst}
use twitter_client_server.Prelude.Text.{Text, eq_text_iff, mem_text, lookup, AreUnique}
use twitter_client_server.Engine.{TopicRef, Engine, self_id, ref_name, server_topic_name}
use twitter_client_server.Engine.Calls.{new_engine}
use twitter_client_server.Engine.Frame.{Sends}

-- `held`: a topic's entry for a user carries the id of a subscription that the user has to it.
-- `foreign`: only the subscription "0" of a user is to a topic of the user's own name.
pub record IsLinked (e : Engine) : Type 0 where
  pub unique : (r : TopicRef) → AreUnique ((e.object_at r).subscribers)
  pub ids : (n : Text) → AreUnique ((e.user_at n).subscribed_topics)
  pub named : (r : TopicRef) → (e.object_at r).topic_name ≡ ref_name r
  pub owned : (r : TopicRef) (n : Text) → (e.object_at r).topic_user ≡ some n → ref_name r ≡ n
  pub mapped : (name : Text) (r : TopicRef) → e.topics name ≡ some r → ref_name r ≡ name
  pub username : (n : Text) → (e.user_at n).username ≡ n
  pub unknown : (n : Text) → mem_text n e.users ≡ false → (e.user_at n).subscribed_topics ≡ []
  pub held :
      (r : TopicRef) (n id : Text)
      → lookup n ((e.object_at r).subscribers) ≡ some id
      → lookup id ((e.user_at n).subscribed_topics) ≡ some r
  pub foreign :
      (n id : Text) (r : TopicRef)
      → lookup id ((e.user_at n).subscribed_topics) ≡ some r
      → ref_name r ≡ n
      → id ≡ self_id

-- A send, a login or a logout leaves the links as they are.
pub Sends-IsLinked : {d e : Engine} → Sends d e → IsLinked d → IsLinked e
Sends-IsLinked {d} {e} s k = record {
  unique = λ r. subst AreUnique (sym ((s.same_topic r).subscribers)) (k.unique r);
  ids = λ n. subst AreUnique (sym ((s.same_user n).subscribed_topics)) (k.ids n);
  named = λ r. (s.same_topic r).topic_name ∙ k.named r;
  owned = λ r n h. k.owned r n (sym ((s.same_topic r).topic_user) ∙ h);
  mapped = λ name r h.
      k.mapped name r (ground (arith, ap (λ (f : Text → Option TopicRef). f name) s.topics));
  username = λ n. (s.same_user n).username ∙ k.username n;
  unknown = λ n h.
      (s.same_user n).subscribed_topics ∙ k.unknown n (ground (arith, ap (mem_text n) s.users));
  held = λ r n id h.
      ap (lookup id) ((s.same_user n).subscribed_topics)
      ∙ k.held r n id (sym (ap (lookup n) ((s.same_topic r).subscribers)) ∙ h);
  foreign =
      λ n id r h. k.foreign n id r (sym (ap (lookup id) ((s.same_user n).subscribed_topics)) ∙ h);
}

-- The links of an engine at its start.
pub new_engine-IsLinked : IsLinked new_engine
unfolding lookup
new_engine-IsLinked = record {
  unique = λ r. tt;
  ids = λ n. tt;
  named = λ r. refl;
  owned = λ r n h. absurd (cc);
  mapped = λ name r h. ground (arith, h, eq_text_iff name server_topic_name);
  username = λ n. refl;
  unknown = λ n h. refl;
  held = λ r n id h. absurd (cc);
  foreign = λ n id r h own. absurd (cc);
}
