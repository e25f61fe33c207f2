-- ===== src/Stomp/Frames/Runs.antt =====
-- The frames of each connection over any rounds: `processMessage` of
-- twitterEngine/src/spl/stomp/protocol/StompProtocol.java with the connections of both servers.
use mathlib.Core.List.{append_assoc, append-nil}
use twitter_client_server.Prelude.{
  ℕ, ◌≡◌, refl, Option, none, some, List, [], ◌∷◌, ◌++◌, ◌==◌, inl, inr, ◌&&◌, Bool-cases, sym,
  subst,
}
use twitter_client_server.Prelude.Text.{Text, codes, mem_text}
use twitter_client_server.Engine
use twitter_client_server.Engine.{Engine, is_connected, Delivery}
use twitter_client_server.Engine.Calls
use twitter_client_server.Engine.Calls.{Authorization, authorized, refused}
use twitter_client_server.Stomp.{
  Command, Frame, send, subscribe, unsubscribe, disconnect, connect, message, connected, receipt,
  error, header, error_frame, connected_frame,
}
use twitter_client_server.Stomp.Server.{
  Moment, Server, new_server, update, flush_queue, new_deliveries, with_engine,
}
use twitter_client_server.Stomp.Protocol.{
  connect_with, on_connect, on_subscribe, on_unsubscribe, on_send, on_end, with_header, on_request,
  on_authorized, process_frame, process_message, respond, receive, please_login, is_connected_frame,
}
use twitter_client_server.Stomp.Service.{respond-Writes}
use twitter_client_server.Stomp.Rounds.{Round, run}
use twitter_client_server.Stomp.Frames.{
  nothing, Flow, Flows, Puts, frames_for, answer_at, delivered, answers, put_on, if-Flows,
  same_connection, Flow-answered, flush_queue-Flows, quiet-Puts, Puts-refl, with_engine-Puts,
}

on_connect-Puts :
    (w : Moment) (c : ℕ) (name passcode : Text) (s : Server)
    → Puts w s (on_connect w c name passcode s).0
unfolding on_connect Puts Flows
on_connect-Puts w c name passcode s = by (Calls.connect name passcode c s.engine).1
  where
    e : Engine
    e = (Calls.connect name passcode c s.engine).0

    by :
        (a : Authorization)
        → Puts w s (
            (elim a as (λ (x : Authorization). Server × Option Frame) [
              | authorized user ↦ (
                record (with_engine w e s) {
                  current_user = update (with_engine w e s).current_user c (some user);
                },
                some (connected_frame w.uuid),
              )
              | refused topic text ↦ (
                with_engine w e s,
                some (
                    error_frame topic
                      (elim text as (λ (x : Option Text). Text) [ none ↦ [] | some t ↦ t ])),
              )
            ]).0)
    by (authorized user) = λ b ms xs v. with_engine-Puts w e s b ms xs v
    by (refused topic text) = with_engine-Puts w e s

connect_with-Puts :
    (w : Moment) (c : ℕ) (name : Text) (passcode : Option Text) (s : Server)
    → Puts w s (connect_with w c name passcode s).0
unfolding connect_with
connect_with-Puts w c name (some passcode) s = on_connect-Puts w c name passcode s
connect_with-Puts w c name none s =
    elim (Bool-cases (mem_text name (s.engine).users && is_connected ((s.engine).user_at name))) [
      | inl y ↦ rw y (on_connect-Puts w c name [] s)
      | inr n ↦ rw n (Puts-refl w s)
    ]

logout-sent : (u : Text) (e : Engine) → (Engine.logout u e).sent ≡ e.sent
unfolding Engine.logout Engine.set_protocol Engine.set_user
logout-sent u e = refl

on_end-Puts : (w : Moment) (c : ℕ) (f : Frame) (s : Server) → Puts w s (on_end c f s).0
unfolding on_end
on_end-Puts w c f s =
    quiet-Puts w s _ (same (s.current_user c)) (λ b ms xs v. unfold Flows in (unfold Flows in v))
  where
    same :
        (o : Option Text)
        → (elim o as (λ (x : Option Text). Engine) [
          | none ↦ s.engine
          | some u ↦ Engine.logout u s.engine
        ]).sent
          ≡ (s.engine).sent
    same none = refl
    same (some u) = logout-sent u s.engine

with_header-Puts :
    (w : Moment) (o : Option Text) (act : Text → Server → Server × Option Frame) (s : Server)
    → ((t : Text) → Puts w s (act t s).0)
    → Puts w s (with_header o act s).0
unfolding with_header
with_header-Puts w none act s g = Puts-refl w s
with_header-Puts w (some t) act s g = g t

on_request-Puts :
    (w : Moment) (user : Text) (f : Frame) (command : Command) (s : Server)
    → Puts w s (on_request w user f command s).0
unfolding on_request on_subscribe on_unsubscribe on_send
on_request-Puts w user f subscribe s =
    with_header-Puts w (header (codes "id") f) _ s
      (λ id. with_header-Puts w (header (codes "destination") f) _ s (λ d. with_engine-Puts w _ s))
on_request-Puts w user f unsubscribe s =
    with_header-Puts w (header (codes "id") f) _ s (λ id. with_engine-Puts w _ s)
on_request-Puts w user f send s =
    with_header-Puts w (header (codes "destination") f) _ s (λ d. with_engine-Puts w _ s)
on_request-Puts w user f disconnect s = Puts-refl w s
on_request-Puts w user f connect s = Puts-refl w s
on_request-Puts w user f message s = Puts-refl w s
on_request-Puts w user f connected s = Puts-refl w s
on_request-Puts w user f receipt s = Puts-refl w s
on_request-Puts w user f error s = Puts-refl w s

on_authorized-Puts :
    (w : Moment) (c : ℕ) (f : Frame) (command : Command) (s : Server)
    → Puts w s (on_authorized w c f command s).0
unfolding on_authorized
on_authorized-Puts w c f command s = by (s.current_user c)
  where
    by :
        (o : Option Text)
        → Puts w s (
            (elim o as (λ (x : Option Text). Server × Option Frame) [
              | none ↦ (s, some please_login)
              | some user ↦ on_request w user f command s
            ]).0)
    by none = Puts-refl w s
    by (some user) = on_request-Puts w user f command s

process_frame-Puts :
    (w : Moment) (c : ℕ) (f : Frame) (command : Command) (s : Server)
    → Puts w s (process_frame w c f command s).0
unfolding process_frame
process_frame-Puts w c f error s = Puts-refl w s
process_frame-Puts w c f disconnect s = on_end-Puts w c f s
process_frame-Puts w c f connect s =
    with_header-Puts w (header (codes "login") f) _ s
      (λ n. connect_with-Puts w c n (header (codes "passcode") f) s)
process_frame-Puts w c f send s = on_authorized-Puts w c f send s
process_frame-Puts w c f subscribe s = on_authorized-Puts w c f subscribe s
process_frame-Puts w c f unsubscribe s = on_authorized-Puts w c f unsubscribe s
process_frame-Puts w c f message s = on_authorized-Puts w c f message s
process_frame-Puts w c f connected s = on_authorized-Puts w c f connected s
process_frame-Puts w c f receipt s = on_authorized-Puts w c f receipt s

process_message-Puts :
    (w : Moment) (c : ℕ) (frame : Option Frame) (s : Server)
    → Puts w s (process_message w c frame s).0
unfolding process_message
process_message-Puts w c none s = Puts-refl w s
process_message-Puts w c (some f) s = process_frame-Puts w c f f.command s

put_on-Flows :
    (c b : ℕ) (f : Frame) (ms xs : List Frame) (s : Server)
    → Flows b ms xs s
    → Flows b ms (xs ++ answer_at c b (some f)) (put_on c f s)
unfolding Flows
put_on-Flows c b f ms xs s v = elim (Bool-cases (c == b)) [
  | inl y ↦ rw y (
      subst (λ (k : ℕ). Flow ms (xs ++ f ∷ []) (s.written k ++ f ∷ []) (s.messages_queue b))
        (same_connection c b y) (Flow-answered f v))
  | inr n ↦ rw (n, append-nil xs) v
]

respond-Flows :
    (c b : ℕ) (o : Option Frame) (ms xs : List Frame) (s : Server)
    → Flows b ms xs s
    → Flows b ms (xs ++ answer_at c b o) (respond c o s)
unfolding respond
respond-Flows c b none ms xs s v = subst (λ x. Flows b ms x s) (sym (append-nil xs)) v
respond-Flows c b (some f) ms xs s v =
    let put = put_on-Flows c b f ms xs s v in
    let all = xs ++ answer_at c b (some f) in
    if-Flows (is_connected_frame f.command) b ms all (flush_queue c (put_on c f s)) (put_on c f s)
      (flush_queue-Flows c b ms all (put_on c f s) put) put

receive-Flows :
    (w : Moment) (c b : ℕ) (frame : Option Frame) (ms xs : List Frame) (s : Server)
    → Flows b ms xs s
    → Flows b
        (ms ++ frames_for w b (new_deliveries (s.engine).sent ((receive w c frame s).engine).sent))
        (xs ++ answer_at c b (process_message w c frame s).1)
        (receive w c frame s)
unfolding receive
receive-Flows w c b frame ms xs s v =
    let t = (process_message w c frame s).0 in
    let o = (process_message w c frame s).1 in
    subst
      (λ (e : Engine).
        Flows b (ms ++ frames_for w b (new_deliveries (s.engine).sent e.sent))
          (xs ++ answer_at c b o) (respond c o t))
      (sym (respond-Writes c o t).engine)
      (respond-Flows c b o _ xs t (unfold Puts in process_message-Puts w c frame s b ms xs v))

rounds-Flows :
    (rs : List Round) (b : ℕ) (ms xs : List Frame) (s : Server)
    → Flows b ms xs s
    → Flows b (ms ++ delivered rs s b) (xs ++ answers rs s b) (run rs s)
unfolding run delivered answers
rounds-Flows [] b ms xs s v = rw (append-nil ms, append-nil xs) v
rounds-Flows (r ∷ rs) b ms xs s v =
    let t = receive r.moment r.connection r.frame s in
    let fs = frames_for r.moment b (new_deliveries (s.engine).sent (t.engine).sent) in
    let ys = answer_at r.connection b (process_message r.moment r.connection r.frame s).1 in
    subst (λ x. Flows b x (xs ++ (ys ++ answers rs t b)) (run rs t))
      (append_assoc ms fs (delivered rs t b))
      (subst (λ x. Flows b ((ms ++ fs) ++ delivered rs t b) x (run rs t))
        (append_assoc xs ys (answers rs t b))
        (rounds-Flows rs b (ms ++ fs) (xs ++ ys) t
          (receive-Flows r.moment r.connection b r.frame ms xs s v)))

-- After any rounds on any connections of a new server, what was written on a connection is a mix of
-- its answers, in their order, and of the first ones of the messages that the engine sent to it, in
-- their order, and what waits there is just the other ones: no queue and no flush loses, repeats or
-- reorders a frame.
pub run-Flows :
    (rs : List Round) (b : ℕ)
    → Flow
        (delivered rs new_server b)
        (answers rs new_server b)
        ((run rs new_server).written b)
        ((run rs new_server).messages_queue b)
unfolding Flows
run-Flows rs b =
    rounds-Flows rs b [] [] new_server (record { front = []; split = refl; mixed = nothing })
