-- ===== src/Stomp/Protocol.antt =====
-- `StompProtocol` of twitterEngine/src/spl/stomp/protocol/StompProtocol.java on each connection, and
-- the round of a server that calls it. A frame from `parse` has its mandatory headers; a call with a
-- header that is missing answers with the frame of the exception.
use twitter_client_server.Prelude.{
  ℕ, Bool, true, false, Option, none, some, [], ◌∷◌, ◌++◌, if◌then◌else◌, ◌&&◌,
}
use twitter_client_server.Prelude.Text.{Text, codes, lookup, mem_text}
use twitter_client_server.Engine
use twitter_client_server.Engine.{Engine, is_connected, Delivery, Reply, done, failed, null_pointer}
use twitter_client_server.Engine.Calls
use twitter_client_server.Engine.Calls.{Authorization, authorized, refused, new_engine}
use twitter_client_server.Engine.Post.{post}
use twitter_client_server.Stomp.{
  Command, Frame, send, subscribe, unsubscribe, disconnect, connect, message, connected, receipt,
  error, header, error_frame, receipt_frame, connected_frame, message_frame,
}
use twitter_client_server.Stomp.Server.{
  Moment, Server, update, topics_location, topic_name_of, flush_queue, with_engine,
}

-- `e.generateErrorFrame()`, or the frame of an unexpected exception
abbrev pub reply_frame : Option Frame → Reply → Option Frame
reply_frame ok done = ok
reply_frame ok (failed summary text) = some (error_frame summary text)
reply_frame ok null_pointer =
    some (error_frame (codes "null") (codes "java.lang.NullPointerException"))

abbrev pub null_answer : Option Frame
null_answer = some (error_frame (codes "null") (codes "java.lang.NullPointerException"))

abbrev pub or_null : Option Text → Text
or_null none = codes "null"
or_null (some t) = t

unfoldable pub on_connect : Moment → ℕ → Text → Text → Server → Server × Option Frame
on_connect w c name passcode s =
    let (e, result) = Calls.connect name passcode c s.engine in
    let sent = with_engine w e s in
    elim result [
      | authorized user ↦ (
        record sent { current_user = update sent.current_user c (some user) },
        some (connected_frame w.uuid),
      )
      | refused topic text ↦ (sent, some (error_frame topic (elim text [ none ↦ [] | some t ↦ t ])))
    ]

-- `connect`. With no passcode the engine comes to an answer only for a user who is connected, whose
-- password it does not look at.
unfoldable pub connect_with : Moment → ℕ → Text → Option Text → Server → Server × Option Frame
unfolding on_connect
connect_with w c name (some passcode) s = on_connect w c name passcode s
connect_with w c name none s =
    if mem_text name (s.engine).users && is_connected ((s.engine).user_at name)
    then on_connect w c name [] s
    else (s, null_answer)

abbrev pub confirmation : Moment → Text → Text → Text → Frame
confirmation w user id text = message_frame w.timestamp (topics_location ++ user) id w.uuid text

unfoldable pub on_subscribe : Moment → Text → Text → Text → Server → Server × Option Frame
on_subscribe w user destination id s =
    let name = topic_name_of destination in
    let (e, reply) = Calls.subscribe id name user s.engine in
    (
      with_engine w e s,
      reply_frame
          (some
            (confirmation w (((s.engine).user_at user).username) id (codes "following " ++ name)))
          reply,
    )

-- The name that `TwitterEngine.unsubscribe` returns, read before the call.
abbrev pub subscribed_name : Text → Text → Engine → Text
subscribed_name id user e = elim (lookup id ((e.user_at user).subscribed_topics)) [
  | none ↦ []
  | some r ↦ (e.object_at r).topic_name
]

unfoldable pub on_unsubscribe : Moment → Text → Text → Server → Server × Option Frame
on_unsubscribe w user id s =
    let (e, reply) = Calls.unsubscribe id user s.engine in
    (
      with_engine w e s,
      reply_frame
          (some (
            confirmation w (((s.engine).user_at user).username) id
              (codes "unfollowing " ++ subscribed_name id user s.engine)))
          reply,
    )

unfoldable pub on_send : Moment → Text → Text → Text → Server → Server × Option Frame
on_send w user destination body s =
    let (e, reply) = post w.report user (topic_name_of destination) body s.engine in
    (with_engine w e s, reply_frame none reply)

-- The branch of `isEnd`
unfoldable pub on_end : ℕ → Frame → Server → Server × Option Frame
on_end c f s =
    let e : Engine = elim (s.current_user c) [
      | none ↦ s.engine
      | some u ↦ Engine.logout u s.engine
    ] in
    (
      record s {
        engine = e;
        current_user = update s.current_user c none;
        should_close = update s.should_close c true;
      },
      some (receipt_frame (or_null (header (codes "receipt") f))),
    )

unfoldable pub with_header :
    Option Text → (Text → Server → Server × Option Frame) → Server → Server × Option Frame
with_header none act s = (s, null_answer)
with_header (some t) act s = act t s

-- A request of the user who is logged in on the connection.
unfoldable pub on_request : Moment → Text → Frame → Command → Server → Server × Option Frame
on_request w user f subscribe s =
    with_header (header (codes "id") f)
      (λ id. with_header (header (codes "destination") f) (λ d. on_subscribe w user d id)) s
on_request w user f unsubscribe s =
    with_header (header (codes "id") f) (λ id. on_unsubscribe w user id) s
on_request w user f send s =
    with_header (header (codes "destination") f) (λ d. on_send w user d f.body) s
on_request w user f disconnect s = (s, none)
on_request w user f connect s = (s, none)
on_request w user f message s = (s, none)
on_request w user f connected s = (s, none)
on_request w user f receipt s = (s, none)
on_request w user f error s = (s, none)

abbrev pub please_login : Frame
please_login = error_frame (codes "Action cannot be completed. Please login.") []

unfoldable pub on_authorized : Moment → ℕ → Frame → Command → Server → Server × Option Frame
on_authorized w c f command s = elim (s.current_user c) [
  | none ↦ (s, some please_login)
  | some user ↦ on_request w user f command s
]

-- The frame's command decides; a null frame is one that could not be parsed.
unfoldable pub process_frame : Moment → ℕ → Frame → Command → Server → Server × Option Frame
process_frame w c f error s = (s, some f)
process_frame w c f disconnect s = on_end c f s
process_frame w c f connect s =
    with_header (header (codes "login") f)
      (λ name. connect_with w c name (header (codes "passcode") f)) s
process_frame w c f send s = on_authorized w c f send s
process_frame w c f subscribe s = on_authorized w c f subscribe s
process_frame w c f unsubscribe s = on_authorized w c f unsubscribe s
process_frame w c f message s = on_authorized w c f message s
process_frame w c f connected s = on_authorized w c f connected s
process_frame w c f receipt s = on_authorized w c f receipt s

unfoldable pub process_message : Moment → ℕ → Option Frame → Server → Server × Option Frame
process_message w c frame s = elim frame [
  | none ↦ (s, some (error_frame (codes "Frame error.") []))
  | some f ↦ process_frame w c f f.command s
]

-- The answer is written, and behind a CONNECTED frame what waited for it.
abbrev pub is_connected_frame : Command → Bool
is_connected_frame connected = true
is_connected_frame send = false
is_connected_frame subscribe = false
is_connected_frame unsubscribe = false
is_connected_frame disconnect = false
is_connected_frame connect = false
is_connected_frame message = false
is_connected_frame receipt = false
is_connected_frame error = false

unfoldable pub respond : ℕ → Option Frame → Server → Server
respond c none s = s
respond c (some f) s =
    let sent = record s { written = update s.written c (s.written c ++ f ∷ []) } in
    if is_connected_frame f.command then flush_queue c sent else sent

-- One round of `process`, or of the task's loop.
unfoldable pub receive : Moment → ℕ → Option Frame → Server → Server
receive w c frame s = let (s', answer) = process_message w c frame s in respond c answer s'
