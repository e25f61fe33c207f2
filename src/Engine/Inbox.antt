-- ===== src/Engine/Inbox.antt =====
-- What a user has been sent, through the connections or into the queue, and how the methods of
-- User in twitterEngine/src/spl/twitter/engine/User.java change it.
use mathlib.Core.List.{append_assoc, append-nil}
use twitter_client_server.Prelude.{
  ℕ, ◌≡◌, refl, Option, none, some, List, [], ◌∷◌, ◌++◌, arith, if◌then◌else◌, inl, inr, ◌∙◌, sym,
}
use twitter_client_server.Prelude.Text.{Text, eq_text, eq_text-cases}
use twitter_client_server.Engine.{
  Message, Engine, Delivery, set_user, set_protocol, poll_all, flush_to, flush_messages, enqueue,
  user_send,
}

unfoldable pub received : Text → List Delivery → List Message
received u [] = []
received u (d ∷ ds) = let rest = received u ds in if eq_text d.to u then d.content ∷ rest else rest

-- The messages that went out to the user, and those that wait for the user's next login.
unfoldable pub inbox : Engine → Text → List Message
inbox e u = received u e.sent ++ (e.user_at u).messages

pub received-append :
    (u : Text) (ds es : List Delivery) → received u (ds ++ es) ≡ received u ds ++ received u es
unfolding received
received-append u [] es = refl
received-append u (d ∷ ds) es = ground (arith, received-append u ds es)

pub received-poll_all :
    (u n : Text) (c : ℕ) (q : List Message)
    → received u (poll_all n c q) ≡ (if eq_text n u then q else [])
unfolding received poll_all
received-poll_all u n c [] = ground arith
received-poll_all u n c (m ∷ q) = ground (arith, received-poll_all u n c q)

flush_to-inbox :
    (p : Option ℕ) (n : Text) (e : Engine) (u : Text) → inbox (flush_to p n e) u ≡ inbox e u
unfolding inbox flush_to set_user
flush_to-inbox none n e u = refl
flush_to-inbox (some c) n e u = elim (eq_text-cases n u) [
  | inl (same, y) ↦ rw (received-append, received-poll_all, y) (rw (append-nil, same) refl)
  | inr (other, y) ↦ rw (received-append, received-poll_all, y, append-nil) refl
]

-- A flush moves messages, and neither drops one nor changes their order.
pub inbox-flush_messages :
    (n : Text) (e : Engine) (u : Text) → inbox (flush_messages n e) u ≡ inbox e u
unfolding flush_messages
inbox-flush_messages n e u = flush_to-inbox ((e.user_at n).protocol) n e u

pub inbox-set_protocol :
    (p : Option ℕ) (n : Text) (e : Engine) (u : Text) → inbox (set_protocol p n e) u ≡ inbox e u
unfolding inbox set_protocol set_user
inbox-set_protocol p n e u = elim (eq_text-cases n u) [
  | inl (same, y) ↦ rw y (rw same refl)
  | inr (other, y) ↦ rw y refl
]

inbox-enqueue :
    (m : Message) (n : Text) (e : Engine) (u : Text)
    → inbox (enqueue m n e) u ≡ inbox e u ++ (if eq_text n u then m ∷ [] else [])
unfolding inbox enqueue set_user
inbox-enqueue m n e u = elim (eq_text-cases n u) [
  | inl (same, y) ↦
      rw y (rw same (sym (append_assoc (received u e.sent) ((e.user_at u).messages) (m ∷ []))))
  | inr (other, y) ↦ rw y (sym (append-nil (inbox e u)))
]

pub inbox-user_send :
    (m : Message) (n : Text) (e : Engine) (u : Text)
    → inbox (user_send m n e) u ≡ inbox e u ++ (if eq_text n u then m ∷ [] else [])
unfolding user_send
inbox-user_send m n e u = inbox-flush_messages n (enqueue m n e) u ∙ inbox-enqueue m n e u
