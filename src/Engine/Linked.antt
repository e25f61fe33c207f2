-- ===== src/Engine/Linked.antt =====
-- Each call of TwitterEngine keeps the links, the users and, but for a post, every user's messages:
-- twitterEngine/src/spl/twitter/engine/TwitterEngine.java.
use twitter_client_server.Prelude.{
  ℕ, ◌≡◌, ◌≢◌, refl, Bool, true, false, Option, none, some, [], ◌∷◌, arith, if◌then◌else◌, inl, inr,
  ◌⊎◌, Bool-cases, Option-cases, ◌∙◌, sym, ap, subst,
}
use twitter_client_server.Prelude.Text.{
  Text, codes, eq_text, eq_text-cases, mem_text, mem_text-append, lookup,
}
use twitter_client_server.Engine.{
  TopicRef, User, Engine, ref_name, set_user, is_approved, is_connected, has_subscription,
  subscribe_to, add_subscriber, put_subscription, set_topic, unsubscribe_user, login, set_protocol,
  logout,
}
use twitter_client_server.Engine.Calls.{
  Authorization, authorized, refused, connect, connect_known, create_user, subscribe, unsubscribe,
}
use twitter_client_server.Engine.Frame.{set_protocol-Sends}
use twitter_client_server.Engine.Inbox.{inbox, inbox-set_protocol}
use twitter_client_server.Engine.Sound.{IsLinked, Sends-IsLinked}
use twitter_client_server.Engine.Links.{subscribe_to-IsLinked}
use twitter_client_server.Engine.Unlink.{without_link, without_link-IsLinked, unsubscribe_user_lem}
use twitter_client_server.Engine.Login.{login-LogsIn, login_denied}
use twitter_client_server.Engine.Reset.{inbox-without_link, globals-without_link}
use twitter_client_server.Engine.Created.{create_user-IsLinked, create_user_rest}

-- A call that posts nothing.
pub record Serves (d e : Engine) : Type 0 where
  pub linked : IsLinked e
  pub known : (u : Text) → mem_text u d.users ≡ true → mem_text u e.users ≡ true
  pub same_inbox : (u : Text) → mem_text u d.users ≡ true → inbox e u ≡ inbox d u

pub Serves-refl : (e : Engine) → IsLinked e → Serves e e
Serves-refl e k = record { linked = k; known = λ u h. h; same_inbox = λ u h. refl }

Serves-of_eq :
    {d e : Engine}
    → IsLinked e
    → e.users ≡ d.users
    → ((u : Text) → inbox e u ≡ inbox d u)
    → Serves d e
Serves-of_eq {d} {e} k same box = record {
  linked = k;
  known = λ u h. ap (mem_text u) same ∙ h;
  same_inbox = λ u h. box u;
}

pub set_protocol-Serves :
    (p : Option ℕ) (n : Text) (e : Engine) → IsLinked e → Serves e (set_protocol p n e)
set_protocol-Serves p n e k =
    let s = set_protocol-Sends p n e in
    Serves-of_eq (Sends-IsLinked s k) s.users (inbox-set_protocol p n e)

pub logout-Serves : (n : Text) (e : Engine) → IsLinked e → Serves e (logout n e)
unfolding logout
logout-Serves n e k = set_protocol-Serves none n e k

login-Serves :
    (password : Text) (c : ℕ) (n : Text) (e : Engine)
    → IsLinked e
    → Serves e (login password c n e).0
login-Serves password c n e k = elim (Bool-cases (is_approved password (e.user_at n))) [
  | inl ok ↦ let l = login-LogsIn password c n e k ok in Serves-of_eq l.linked l.users l.same_inbox
  | inr no_ ↦ rw (login_denied password c n e no_) (Serves-refl e k)
]

Serves-at : {d e f : Engine} → e ≡ f → Serves d f → Serves d e
Serves-at {d} same s = subst (Serves d) (sym same) s

abbrev ap_first : Engine × Authorization → Engine
ap_first p = p.0

connect_known-cases :
    (name password : Text) (c : ℕ) (e : Engine)
    → ((connect_known name password c e).0 ≡ set_protocol (some c) name e)
      ⊎ ((connect_known name password c e).0 ≡ (login password c name e).0)
unfolding connect_known
connect_known-cases name password c e = elim (Bool-cases (is_connected (e.user_at name))) [
  | inl on ↦ inl (rw on refl)
  | inr off ↦ inr (rw off (same_engine (login password c name e).1))
]
  where
    same_engine :
        (approved : Bool)
        → ap_first (
            if approved then ((login password c name e).0, authorized name) else (
              (login password c name e).0,
              refused (codes "Login Error") (some (codes "Password is wrong")),
            ))
          ≡ (login password c name e).0
    same_engine true = refl
    same_engine false = refl

connect_known-Serves :
    (name password : Text) (c : ℕ) (e : Engine)
    → IsLinked e
    → Serves e (connect_known name password c e).0
connect_known-Serves name password c e k = elim (connect_known-cases name password c e) [
  | inl moved ↦ Serves-at moved (set_protocol-Serves (some c) name e k)
  | inr tried ↦ Serves-at tried (login-Serves password c name e k)
]

create_user-Serves :
    (name password : Text) (c : ℕ) (e : Engine)
    → IsLinked e
    → mem_text name e.users ≡ false
    → Serves e (create_user name password c e)
create_user-Serves name password c e k new = record {
  linked = create_user-IsLinked name password c e k new;
  known = λ u h. ground (
    arith,
    h,
    ap (mem_text u) (create_user_rest name password c e).0,
    mem_text-append u e.users (name ∷ []),
  );
  same_inbox =
      λ u h. (create_user_rest name password c e).1 u (λ same. ground (arith, same, h, new));
}

-- `connect`, on all its branches.
pub connect-Serves :
    (name password : Text) (c : ℕ) (e : Engine)
    → IsLinked e
    → Serves e (connect name password c e).0
unfolding connect
connect-Serves name password c e k = elim (Bool-cases (mem_text name e.users)) [
  | inl old ↦ rw old (connect_known-Serves name password c e k)
  | inr new ↦ rw new (create_user-Serves name password c e k new)
]

inbox-subscribe_to :
    (r : TopicRef) (id n : Text) (e : Engine) (u : Text)
    → inbox (subscribe_to r id n e) u ≡ inbox e u
unfolding subscribe_to add_subscriber put_subscription set_user set_topic inbox
inbox-subscribe_to r id n e u = elim (eq_text-cases n u) [
  | inl (same, y) ↦ rw y (rw same refl)
  | inr (other, y) ↦ rw y refl
]

users-subscribe_to :
    (r : TopicRef) (id n : Text) (e : Engine) → (subscribe_to r id n e).users ≡ e.users
unfolding subscribe_to add_subscriber put_subscription set_user set_topic
users-subscribe_to r id n e = refl

lookup_of_has_subscription :
    (id : Text) (u : User) → has_subscription id u ≡ false → lookup id u.subscribed_topics ≡ none
unfolding has_subscription
lookup_of_has_subscription id u h = ground (arith, h)

subscribe_to-Serves :
    (r : TopicRef) (id user : Text) (e : Engine)
    → IsLinked e
    → mem_text user e.users ≡ true
    → ref_name r ≢ user
    → has_subscription id (e.user_at user) ≡ false
    → Serves e (subscribe_to r id user e)
subscribe_to-Serves r id user e k known other new =
    Serves-of_eq
      (subscribe_to-IsLinked r id user e k (lookup_of_has_subscription id _ new) other known)
      (users-subscribe_to r id user e) (inbox-subscribe_to r id user e)

-- A subscription is refused, with the engine as it was, or made to a topic of another name.
subscribe-cases :
    (id name user : Text) (e : Engine)
    → ((subscribe id name user e).0 ≡ e)
      ⊎ ((r : TopicRef) × (e.topics name ≡ some r)
          × (name ≢ (e.user_at user).username)
          × (has_subscription id (e.user_at user) ≡ false)
          × ((subscribe id name user e).0 ≡ subscribe_to r id user e))
unfolding subscribe
subscribe-cases id name user e = elim (eq_text-cases name ((e.user_at user).username)) [
  | inl (same, own) ↦ inl (rw own refl)
  | inr (other, no_) ↦ elim (Option-cases (e.topics name)) [
    | inl missing ↦ inl (ground (arith, no_, missing))
    | inr (r, found) ↦ elim (Bool-cases (has_subscription id (e.user_at user))) [
      | inl old ↦ inl (ground (arith, no_, found, old))
      | inr new ↦ inr (r, found, other, new, ground (arith, no_, found, new))
    ]
  ]
]

-- A subscription by a user who is known.
pub subscribe-Serves :
    (id name user : Text) (e : Engine)
    → IsLinked e
    → mem_text user e.users ≡ true
    → Serves e (subscribe id name user e).0
subscribe-Serves id name user e k known = elim (subscribe-cases id name user e) [
  | inl kept ↦ Serves-at kept (Serves-refl e k)
  | inr (r, found, other, new, made) ↦ Serves-at made (
      subscribe_to-Serves r id user e k known
        (λ own. other (sym (k.mapped name r found) ∙ own ∙ sym (k.username user))) new)
]

without_link-Serves :
    (r : TopicRef) (id user : Text) (e : Engine)
    → IsLinked e
    → lookup id ((e.user_at user).subscribed_topics) ≡ some r
    → ref_name r ≢ user
    → Serves e (without_link r id user e)
without_link-Serves r id user e k found other =
    Serves-of_eq (without_link-IsLinked id user e r k found other)
      (globals-without_link r id user e).0 (inbox-without_link r id user e)

-- The same for the end of a subscription.
unsubscribe-cases :
    (id user : Text) (e : Engine)
    → IsLinked e
    → ((unsubscribe id user e).0 ≡ e)
      ⊎ ((r : TopicRef) × (lookup id ((e.user_at user).subscribed_topics) ≡ some r)
          × (ref_name r ≢ user)
          × ((unsubscribe id user e).0 ≡ without_link r id user e))
unfolding unsubscribe has_subscription
unsubscribe-cases id user e k =
    elim (Option-cases (lookup id ((e.user_at user).subscribed_topics))) [
      | inl missing ↦ inl (ground (arith, missing))
      | inr (r, found) ↦
          elim (eq_text-cases ((e.object_at r).topic_name) ((e.user_at user).username)) [
            | inl (same, own) ↦ inl (ground (arith, found, refused_own r found own))
            | inr (other, no_) ↦
                let foreign : ref_name r ≢ user =
                  λ own. other (k.named r ∙ own ∙ sym (k.username user)) in
                inr (
                  r,
                  found,
                  foreign,
                  ground (arith, found, unsubscribe_user_lem id user e r k found foreign),
                )
          ]
    ]
  where
    refused_own :
        (r : TopicRef)
        → lookup id ((e.user_at user).subscribed_topics) ≡ some r
        → eq_text ((e.object_at r).topic_name) ((e.user_at user).username) ≡ true
        → (unsubscribe_user id user e).0 ≡ e
    refused_own r found own = unfold unsubscribe_user in ground (arith, found, own)

pub unsubscribe-Serves :
    (id user : Text) (e : Engine) → IsLinked e → Serves e (unsubscribe id user e).0
unsubscribe-Serves id user e k = elim (unsubscribe-cases id user e k) [
  | inl kept ↦ Serves-at kept (Serves-refl e k)
  | inr (r, found, other, dropped) ↦
      Serves-at dropped (without_link-Serves r id user e k found other)
]

-- A subscription to a topic of another name is given up on both sides.
pub unsubscribe_engine :
    (id user : Text) (e : Engine) (r : TopicRef)
    → IsLinked e
    → lookup id ((e.user_at user).subscribed_topics) ≡ some r
    → ref_name r ≢ user
    → (unsubscribe id user e).0 ≡ without_link r id user e
unfolding unsubscribe has_subscription
unsubscribe_engine id user e r k found foreign =
    ground (arith, found, unsubscribe_user_lem id user e r k found foreign)
