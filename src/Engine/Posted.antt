-- ===== src/Engine/Posted.antt =====
-- A call of `send` in twitterEngine/src/spl/twitter/engine/TwitterEngine.java, on all its branches,
-- against the followers' view of it.
use mathlib.Core.List.{append-nil}
use twitter_client_server.Prelude.{
  ◌≡◌, true, Option, none, some, List, [], ◌∷◌, ◌++◌, arith, if◌then◌else◌, inl, inr, Bool-cases,
  Option-cases, ◌∙◌, sym, ap, subst,
}
use mathlib.Core.Path.{fun_ext}
use twitter_client_server.Prelude.Text.{Text, codes, eq_text, mem_text}
use twitter_client_server.Engine.{
  Message, TopicRef, server_object, Engine, server_topic_name, logout,
}
use twitter_client_server.Engine.Calls.{topic_send}
use twitter_client_server.Engine.Mentions.{trim, without, starts_with}
use twitter_client_server.Engine.Post.{
  list_clients, logout_all, stop, process_server_message, post_to, post,
}
use twitter_client_server.Engine.Frame.{Sends, topic_send-Sends, post_to-Sends}
use twitter_client_server.Engine.Inbox.{inbox}
use twitter_client_server.Engine.Copies.{HasOneEntryEach, copy_by, inbox-topic_send}
use twitter_client_server.Engine.Mentioned.{post_copies, inbox-post_to}
use twitter_client_server.Engine.Sound.{IsLinked, Sends-IsLinked}
use twitter_client_server.Engine.Linked.{Serves, Serves-refl, logout-Serves}

-- The answer to a server command that the subscribers of the server's topic get; a stop has none.
unfoldable pub server_answer : Text → Text → Engine → Option Text
server_answer report text e =
    let command = without b'\r' (trim text) in
    if starts_with (codes "clients") command
    then some (list_clients (eq_text command (codes "clients online")) e.users e.user_at)
    else if eq_text command (codes "stats")
    then some report
    else if eq_text command (codes "stop")
    then none
    else some []

unfoldable pub answer_copies : Engine → Text → Option Text → List Message
unfolding copy_by
answer_copies e u none = []
answer_copies e u (some text) = copy_by e server_object text u

-- What a user gets by a post, told by the topics and who follows them: nothing where it is refused,
-- the answer of the server, or the copies of a post to the user's own topic.
unfoldable pub copies_of_post : Text → Text → Text → Text → Engine → Text → List Message
unfolding server_answer answer_copies post_copies
copies_of_post report user destination text e u = elim (e.topics destination) [
  | none ↦ []
  | some r ↦
      if eq_text destination server_topic_name
      then answer_copies e u (server_answer report text e)
      else if eq_text ((e.user_at user).username) destination
      then post_copies e r text u
      else []
]

-- The state `e` after a call at `d` that gives each user the messages `added`.
pub record Posts (d e : Engine) (added : Text → List Message) : Type 0 where
  pub linked : IsLinked e
  pub known : (u : Text) → mem_text u d.users ≡ true → mem_text u e.users ≡ true
  pub grown : (u : Text) → mem_text u d.users ≡ true → inbox e u ≡ inbox d u ++ added u

pub Posts-of_Serves : {d e : Engine} → Serves d e → Posts d e (λ u. [])
Posts-of_Serves {d} s = record {
  linked = s.linked;
  known = s.known;
  grown = λ u h. s.same_inbox u h ∙ sym (append-nil (inbox d u));
}

Posts-of_Sends :
    {d e : Engine} (added : Text → List Message)
    → IsLinked d
    → Sends d e
    → ((u : Text) → inbox e u ≡ inbox d u ++ added u)
    → Posts d e added
Posts-of_Sends added k s grown = record {
  linked = Sends-IsLinked s k;
  known = λ u h. ap (mem_text u) s.users ∙ h;
  grown = λ u h. grown u;
}

pub one_entry_of : {e : Engine} → IsLinked e → HasOneEntryEach e
one_entry_of k = record { unique = k.unique }

logout_all-Serves : (ns : List Text) (e : Engine) → IsLinked e → Serves e (logout_all ns e)
unfolding logout_all
logout_all-Serves [] e k = Serves-refl e k
logout_all-Serves (n ∷ ns) e k =
    let first = logout-Serves n e k in
    let rest = logout_all-Serves ns (logout n e) first.linked in
    record {
      linked = rest.linked;
      known = λ u h. rest.known u (first.known u h);
      same_inbox = λ u h. rest.same_inbox u (first.known u h) ∙ first.same_inbox u h;
    }

stopped-Serves : {d : Engine} (e : Engine) → Serves d e → Serves d (record e { stopped = true })
unfolding inbox
stopped-Serves e s = record {
  linked = record {
    unique = s.linked.unique;
    ids = s.linked.ids;
    named = s.linked.named;
    owned = s.linked.owned;
    mapped = s.linked.mapped;
    username = s.linked.username;
    unknown = s.linked.unknown;
    held = s.linked.held;
    foreign = s.linked.foreign;
  };
  known = s.known;
  same_inbox = s.same_inbox;
}

stop-Serves : (e : Engine) → IsLinked e → Serves e (stop e)
unfolding stop
stop-Serves e k = stopped-Serves (logout_all e.users e) (logout_all-Serves e.users e k)

answered : Engine → Option Text → Engine
answered e none = stop e
answered e (some text) = (topic_send server_object text none e).0

process_server_message_lem :
    (report text : Text) (e : Engine)
    → process_server_message report text e ≡ answered e (server_answer report text e)
unfolding process_server_message server_answer answered
process_server_message_lem report text e = ground arith

answered-Posts :
    (e : Engine) (o : Option Text) → IsLinked e → Posts e (answered e o) (λ u. answer_copies e u o)
unfolding answered answer_copies
answered-Posts e none k = Posts-of_Serves (stop-Serves e k)
answered-Posts e (some text) k =
    Posts-of_Sends (λ u. copy_by e server_object text u) k
      (topic_send-Sends server_object text none e)
      (λ u. inbox-topic_send server_object text none e u (one_entry_of k))

post_to-Posts :
    (r : TopicRef) (text : Text) (e : Engine)
    → IsLinked e
    → Posts e (post_to r text e) (λ u. post_copies e r text u)
post_to-Posts r text e k =
    Posts-of_Sends (λ u. post_copies e r text u) k (post_to-Sends r text e)
      (λ u. inbox-post_to r text e u (one_entry_of k))

Posts-at :
    {d e f : Engine} {added told : Text → List Message}
    → e ≡ f
    → ((u : Text) → told u ≡ added u)
    → Posts d f added
    → Posts d e told
Posts-at {d} {e} {f} {added} {told} same copies p =
    subst (Posts d e) (sym (fun_ext copies)) (subst (λ x. Posts d x added) (sym same) p)

-- A post, on each of its branches, gives every user just the copies that the followers' view tells.
pub post-Posts :
    (report user destination text : Text) (e : Engine)
    → IsLinked e
    → Posts e
        (post report user destination text e).0
        (λ u. copies_of_post report user destination text e u)
unfolding post copies_of_post
post-Posts report user destination text e k = elim (Option-cases (e.topics destination)) [
  | inl missing ↦
      Posts-at (ground (arith, missing)) (λ u. ground (arith, missing))
        (Posts-of_Serves (Serves-refl e k))
  | inr (r, found) ↦ elim (Bool-cases (eq_text destination server_topic_name)) [
    | inl server ↦
        Posts-at (ground (arith, found, server, process_server_message_lem report text e))
          (λ u. ground (arith, found, server)) (answered-Posts e (server_answer report text e) k)
    | inr other ↦ elim (Bool-cases (eq_text ((e.user_at user).username) destination)) [
      | inl own ↦
          Posts-at (ground (arith, found, other, own)) (λ u. ground (arith, found, other, own))
            (post_to-Posts r text e k)
      | inr no_ ↦
          Posts-at (ground (arith, found, other, no_)) (λ u. ground (arith, found, other, no_))
            (Posts-of_Serves (Serves-refl e k))
    ]
  ]
]
