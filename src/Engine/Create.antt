-- ===== src/Engine/Create.antt =====
-- A new user with the own topic: the last branch of `connect` in
-- twitterEngine/src/spl/twitter/engine/TwitterEngine.java, with `new User` and `setTopicUser`.
use twitter_client_server.Prelude.{ℕ, ◌≡◌, ◌≢◌, refl, true, none, some, [], ◌∙◌, ap, subst}
use twitter_client_server.Prelude.Text.{Text, lookup, eq_text_refl, eq_text-false}
use twitter_client_server.Engine.{TopicRef, User, Engine, set_user, is_approved}
use twitter_client_server.Engine.Calls.{new_user}
use twitter_client_server.Engine.Frame.{SameUser, SameTopic}
use twitter_client_server.Engine.Login.{flushed, flushed-Sends, login_fresh}

abbrev pub first_user : Text → Text → ℕ → User
first_user name password c = record {
  username = name;
  password = password;
  protocol = some c;
  messages = [];
  subscribed_topics = [];
}

pub first_password :
    (name password : Text) (c : ℕ) → is_approved password (first_user name password c) ≡ true
unfolding is_approved
first_password name password c = eq_text_refl password

pub set_user_other :
    (n k : Text) (v : User) (e : Engine) → n ≢ k → (set_user n v e).user_at k ≡ e.user_at k
unfolding set_user
set_user_other n k v e other = rw (eq_text-false n k other) refl

pub set_user_topics :
    (n : Text) (v : User) (e : Engine) (r : TopicRef) → (set_user n v e).object_at r ≡ e.object_at r
unfolding set_user
set_user_topics n v e r = refl

pub set_user_self : (n : Text) (v : User) (e : Engine) → (set_user n v e).user_at n ≡ v
unfolding set_user
set_user_self n v e = rw (eq_text_refl n) refl

-- A new user's first login changes no more than the connection.
pub new_user_lem :
    (name password : Text) (c : ℕ) (e : Engine)
    → new_user name password c e ≡ flushed c name (set_user name (first_user name password c) e)
unfolding new_user
new_user_lem name password c e =
    let v = first_user name password c in
    login_fresh password c name (set_user name v e)
      (rw (set_user_self name v e) (first_password name password c))
      (rw (set_user_self name v e) refl)

pub record Makes (name : Text) (e d : Engine) : Type 0 where
  pub users : d.users ≡ e.users
  pub topics : d.topics ≡ e.topics
  pub username : (d.user_at name).username ≡ name
  pub subscribed_topics : (d.user_at name).subscribed_topics ≡ []
  pub same_user : (k : Text) → name ≢ k → SameUser (e.user_at k) (d.user_at k)
  pub same_topic : (r : TopicRef) → SameTopic (e.object_at r) (d.object_at r)

pub new_user-Makes :
    (name password : Text) (c : ℕ) (e : Engine) → Makes name e (new_user name password c e)
new_user-Makes name password c e =
    let v = first_user name password c in
    let d = set_user name v e in
    let s = flushed-Sends c name d in
    rw (new_user_lem name password c e) (record {
      users = s.users ∙ unfold set_user in refl;
      topics = s.topics ∙ unfold set_user in refl;
      username =
          (s.same_user name).username ∙ ap (λ (u : User). u.username) (set_user_self name v e);
      subscribed_topics =
          (s.same_user name).subscribed_topics
          ∙ ap (λ (u : User). u.subscribed_topics) (set_user_self name v e);
      same_user = λ k other.
          subst (λ u. SameUser u ((flushed c name d).user_at k)) (set_user_other name k v e other)
            (s.same_user k);
      same_topic = λ r.
          subst (λ t. SameTopic t ((flushed c name d).object_at r)) (set_user_topics name v e r)
            (s.same_topic r);
    })

pub lookup-nil : {V : Type 0} (id : Text) → lookup {V = V} id [] ≡ none
unfolding lookup
lookup-nil id = refl
