-- ===== src/Stomp/Rounds.antt =====
-- Each branch of `processMessage` in twitterEngine/src/spl/stomp/protocol/StompProtocol.java, the
-- round of a server around it, and any sequence of rounds on any connections.
use mathlib.Core.List.{append_assoc}
use twitter_client_server.Prelude.{
  ℕ, ◌≡◌, refl, true, Option, none, some, List, [], ◌∷◌, ◌++◌, arith, inl, inr, ◌⊎◌, Bool-cases,
  ◌∙◌, ap, ◌==◌, ◌&&◌,
}
use twitter_client_server.Prelude.Text.{Text, codes, mem_text}
use twitter_client_server.Engine
use twitter_client_server.Engine.{Message, User, Engine, is_connected, Reply, Delivery}
use twitter_client_server.Engine.Calls
use twitter_client_server.Engine.Calls.{Authorization, authorized, refused, connect_known}
use twitter_client_server.Engine.Inbox.{inbox}
use twitter_client_server.Engine.Linked.{
  Serves-refl, connect-Serves, subscribe-Serves, unsubscribe-Serves, logout-Serves,
}
use twitter_client_server.Engine.Posted.{Posts, copies_of_post, post-Posts, Posts-of_Serves}
use twitter_client_server.Stomp.{
  Command, Frame, send, subscribe, unsubscribe, disconnect, connect, message, connected, receipt,
  error, header, error_frame, connected_frame,
}
use twitter_client_server.Stomp.Server.{Moment, Server, update, topic_name_of, with_engine}
use twitter_client_server.Stomp.Protocol.{
  connect_with, on_connect, on_subscribe, on_unsubscribe, on_send, on_end, with_header, on_request,
  on_authorized, process_frame, process_message, receive, please_login,
}
use twitter_client_server.Stomp.Service.{
  with_engine_lem, respond-Writes, IsServed, Gives, nothing, Gives-refl, Gives-of_Posts, Gives-at,
  authorized_known, sent_by, frame_gives, gives, kept_sessions, with_engine-Gives,
}

connect_sessions :
    (w : Moment) (e : Engine) (s : Server) (c : ℕ) (user : Text)
    → mem_text user e.users ≡ true
    → (b : ℕ) (u : Text) → update (with_engine w e s).current_user c (some user) b ≡ some u
    → (s.current_user b ≡ some u) ⊎ (mem_text u e.users ≡ true)
connect_sessions w e s c user here b u h = elim (Bool-cases (c == b)) [
  | inl y ↦ inr (ground (arith, h, y, here))
  | inr n ↦ kept_sessions w e s b u (ground (arith, h, n))
]

on_connect-Gives :
    (w : Moment) (c : ℕ) (name passcode : Text) (s : Server)
    → IsServed s
    → Gives s (on_connect w c name passcode s).0 nothing
unfolding on_connect
on_connect-Gives w c name passcode s k = by (Calls.connect name passcode c s.engine).1 refl
  where
    e : Engine
    e = (Calls.connect name passcode c s.engine).0

    posts : Posts s.engine e nothing
    posts = Posts-of_Serves (connect-Serves name passcode c s.engine k.linked)

    by :
        (a : Authorization)
        → (Calls.connect name passcode c s.engine).1 ≡ a
        → Gives s
            ((elim a as (λ (x : Authorization). Server × Option Frame) [
              | authorized user ↦ (
                record (with_engine w e s) {
                  current_user = update (with_engine w e s).current_user c (some user);
                },
                some (connected_frame w.uuid),
              )
              | refused topic text ↦ (
                with_engine w e s,
                some (
                    error_frame topic
                      (elim text as (λ (x : Option Text). Text) [ none ↦ [] | some t ↦ t ])),
              )
            ]).0)
            nothing
    by (authorized user) h =
        Gives-of_Posts s _ e nothing k posts (with_engine_lem w e s).0 (
          connect_sessions w e s c user (authorized_known name passcode c s.engine user k.linked h))
    by (refused topic text) h = with_engine-Gives w e s nothing k posts

connect_with-Gives :
    (w : Moment) (c : ℕ) (name : Text) (passcode : Option Text) (s : Server)
    → IsServed s
    → Gives s (connect_with w c name passcode s).0 nothing
unfolding connect_with
connect_with-Gives w c name (some passcode) s k = on_connect-Gives w c name passcode s k
connect_with-Gives w c name none s k =
    elim (Bool-cases (mem_text name (s.engine).users && is_connected ((s.engine).user_at name))) [
      | inl y ↦ rw y (on_connect-Gives w c name [] s k)
      | inr n ↦ rw n (Gives-refl s k)
    ]

on_subscribe-Gives :
    (w : Moment) (user destination id : Text) (s : Server)
    → IsServed s
    → mem_text user (s.engine).users ≡ true
    → Gives s (on_subscribe w user destination id s).0 nothing
unfolding on_subscribe
on_subscribe-Gives w user destination id s k known =
    with_engine-Gives w _ s nothing k (
      Posts-of_Serves
        (subscribe-Serves id (topic_name_of destination) user s.engine k.linked known))

on_unsubscribe-Gives :
    (w : Moment) (user id : Text) (s : Server)
    → IsServed s
    → Gives s (on_unsubscribe w user id s).0 nothing
unfolding on_unsubscribe
on_unsubscribe-Gives w user id s k =
    with_engine-Gives w _ s nothing k
      (Posts-of_Serves (unsubscribe-Serves id user s.engine k.linked))

on_send-Gives :
    (w : Moment) (user destination body : Text) (s : Server)
    → IsServed s
    → Gives s
        (on_send w user destination body s).0
        (λ u. copies_of_post w.report user (topic_name_of destination) body s.engine u)
unfolding on_send
on_send-Gives w user destination body s k =
    with_engine-Gives w _ s _ k
      (post-Posts w.report user (topic_name_of destination) body s.engine k.linked)

on_end-Gives : (c : ℕ) (f : Frame) (s : Server) → IsServed s → Gives s (on_end c f s).0 nothing
unfolding on_end
on_end-Gives c f s k =
    Gives-of_Posts s _ (ended (s.current_user c)) nothing k (ended-Posts (s.current_user c)) refl
      (λ b u h. elim (Bool-cases (c == b)) [
        | inl y ↦ absurd (ground (arith, h, y))
        | inr n ↦ inl (ground (arith, h, n))
      ])
  where
    ended : Option Text → Engine
    ended o = elim o [ none ↦ s.engine | some u ↦ Engine.logout u s.engine ]

    ended-Posts : (o : Option Text) → Posts s.engine (ended o) nothing
    ended-Posts none = Posts-of_Serves (Serves-refl s.engine k.linked)
    ended-Posts (some u) = Posts-of_Serves (logout-Serves u s.engine k.linked)

-- A handler that wants a header does nothing without it.
with_header-Gives :
    (o : Option Text) (act : Text → Server → Server × Option Frame) (s : Server)
    → IsServed s
    → ((t : Text) → Gives s (act t s).0 nothing)
    → Gives s (with_header o act s).0 nothing
unfolding with_header
with_header-Gives none act s k g = Gives-refl s k
with_header-Gives (some t) act s k g = g t

send-Gives :
    (w : Moment) (user : Text) (f : Frame) (s : Server) (o : Option Text)
    → IsServed s
    → Gives s
        (with_header o (λ d. on_send w user d f.body) s).0
        (sent_by w (some user) o f.body s.engine)
unfolding with_header
send-Gives w user f s none k = Gives-refl s k
send-Gives w user f s (some d) k = on_send-Gives w user d f.body s k

subscribe-Gives :
    (w : Moment) (user : Text) (f : Frame) (s : Server)
    → IsServed s
    → mem_text user (s.engine).users ≡ true
    → Gives s (on_request w user f subscribe s).0 nothing
unfolding on_request
subscribe-Gives w user f s k known = with_header-Gives (header (codes "id") f) _ s k (λ id.
    with_header-Gives (header (codes "destination") f) _ s k
      (λ d. on_subscribe-Gives w user d id s k known))

unsubscribe-Gives :
    (w : Moment) (user : Text) (f : Frame) (s : Server)
    → IsServed s
    → Gives s (on_request w user f unsubscribe s).0 nothing
unfolding on_request
unsubscribe-Gives w user f s k =
    with_header-Gives (header (codes "id") f) _ s k (λ id. on_unsubscribe-Gives w user id s k)

-- A request that needs a login, by what the session of the connection is.
module _ (w : Moment) (c : ℕ) (f : Frame) (s : Server) (k : IsServed s) where
  asked : Command → Option Text → Server × Option Frame
  asked command o = elim o [ none ↦ (s, some please_login) | some u ↦ on_request w u f command s ]

  asked-Gives :
      (command : Command) (o : Option Text)
      → s.current_user c ≡ o
      → ((u : Text) → s.current_user c ≡ some u → Gives s (on_request w u f command s).0 nothing)
      → Gives s (asked command o).0 nothing
  unfolding asked
  asked-Gives command none h g = Gives-refl s k
  asked-Gives command (some u) h g = g u h

  asked_to_send :
      (o : Option Text)
      → Gives s (asked send o).0 (sent_by w o (header (codes "destination") f) f.body s.engine)
  unfolding asked on_request
  asked_to_send none = Gives-refl s k
  asked_to_send (some u) = send-Gives w u f s (header (codes "destination") f) k

  process_frame-Gives :
      (command : Command) → Gives s (process_frame w c f command s).0 (frame_gives w c f command s)
  unfolding process_frame on_authorized asked
  process_frame-Gives send = asked_to_send (s.current_user c)
  process_frame-Gives subscribe =
      asked-Gives subscribe (s.current_user c) refl
        (λ u h. subscribe-Gives w u f s k (k.session c u h))
  process_frame-Gives unsubscribe =
      asked-Gives unsubscribe (s.current_user c) refl (λ u h. unsubscribe-Gives w u f s k)
  process_frame-Gives disconnect = on_end-Gives c f s k
  process_frame-Gives connect =
      with_header-Gives (header (codes "login") f) _ s k
        (λ n. connect_with-Gives w c n (header (codes "passcode") f) s k)
  process_frame-Gives message =
      asked-Gives message (s.current_user c) refl (λ u h. unfold on_request in Gives-refl s k)
  process_frame-Gives connected =
      asked-Gives connected (s.current_user c) refl (λ u h. unfold on_request in Gives-refl s k)
  process_frame-Gives receipt =
      asked-Gives receipt (s.current_user c) refl (λ u h. unfold on_request in Gives-refl s k)
  process_frame-Gives error = Gives-refl s k

process_message-Gives :
    (w : Moment) (c : ℕ) (frame : Option Frame) (s : Server)
    → IsServed s
    → Gives s (process_message w c frame s).0 (gives w c frame s)
unfolding process_message gives
process_message-Gives w c none s k = Gives-refl s k
process_message-Gives w c (some f) s k = process_frame-Gives w c f s k f.command

-- A round keeps the links and the sessions, and gives each known user what the followers' view tells.
pub receive-Gives :
    (w : Moment) (c : ℕ) (frame : Option Frame) (s : Server)
    → IsServed s
    → Gives s (receive w c frame s) (gives w c frame s)
unfolding receive
receive-Gives w c frame s k =
    Gives-at s (process_message w c frame s).0 _ (gives w c frame s) (respond-Writes c _ _)
      (process_message-Gives w c frame s k)

pub record Round : Type 0 where
  pub moment : Moment
  pub connection : ℕ
  pub frame : Option Frame

unfoldable pub run : List Round → Server → Server
run [] s = s
run (r ∷ rs) s = run rs (receive r.moment r.connection r.frame s)

-- What a user is sent over the rounds, told by the followers' view of each.
unfoldable pub told : List Round → Server → Text → List Message
unfolding gives
told [] s u = []
told (r ∷ rs) s u =
    gives r.moment r.connection r.frame s u ++ told rs (receive r.moment r.connection r.frame s) u

run-Gives : (rs : List Round) (s : Server) → IsServed s → Gives s (run rs s) (told rs s)
unfolding run told
run-Gives [] s k = Gives-refl s k
run-Gives (r ∷ rs) s k =
    let first = receive-Gives r.moment r.connection r.frame s k in
    let rest = run-Gives rs (receive r.moment r.connection r.frame s) first.served in
    record {
      served = rest.served;
      known = λ u h. rest.known u (first.known u h);
      grown = λ u h.
          rest.grown u (first.known u h)
          ∙ ap (λ ms. ms ++ told rs (receive r.moment r.connection r.frame s) u) (first.grown u h)
          ∙ append_assoc (inbox s.engine u) (gives r.moment r.connection r.frame s u)
              (told rs (receive r.moment r.connection r.frame s) u);
    }

-- After any rounds on any connections each entry of a topic's subscribers is still backed by the
-- subscription of that user under that id, and each session is that of a user the engine knows, if
-- that is so before. A subscription need not have an entry.
pub run-IsServed : (rs : List Round) (s : Server) → IsServed s → IsServed (run rs s)
run-IsServed rs s k = (run-Gives rs s k).served

-- Over any rounds on any connections, what the engine sent to a known user's protocol or keeps in the
-- user's own queue grows just by what the rounds' frames give to that user, in their order: the
-- user's queue, its flushes, logins, logouts and refused requests neither lose, repeat nor reorder a
-- message. Each topic's subscribers are to be backed by subscriptions at the start.
pub run-inbox :
    (rs : List Round) (s : Server) (u : Text)
    → IsServed s
    → mem_text u (s.engine).users ≡ true
    → inbox (run rs s).engine u ≡ inbox s.engine u ++ told rs s u
run-inbox rs s u k known = (run-Gives rs s k).grown u known
