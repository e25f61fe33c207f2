-- ===== src/Stomp/Frames.antt =====
-- What reaches each connection: `ConnectionHandler` of twitterReactorServer/src/spl/twitter/reactor and
-- of twitterThreadPerClientServer/src/spl/twitter/server, and `sendMessage` and `processMessage` of
-- twitterEngine/src/spl/stomp/protocol/StompProtocol.java.
pub mod Runs
use mathlib.Core.List.{append_assoc, append-nil}
use twitter_client_server.Prelude.{
  ℕ, ◌≡◌, refl, Bool, true, false, Option, none, some, List, [], ◌∷◌, ◌++◌, ◌==◌, arith, inl, inr,
  if◌then◌else◌, Bool-cases, ◌∙◌, sym, ap, subst,
}
use twitter_client_server.Prelude.Text.{Text, codes}
use twitter_client_server.Engine
use twitter_client_server.Engine.{Message, Engine, Delivery}
use twitter_client_server.Engine.Calls
use twitter_client_server.Engine.Calls.{Authorization, authorized, refused}
use twitter_client_server.Stomp.{
  Command, Frame, send, subscribe, unsubscribe, disconnect, connect, message, connected, receipt,
  error, header, error_frame, connected_frame, message_frame,
}
use twitter_client_server.Stomp.Server.{
  Moment, Server, new_server, update, topics_location, is_authorized, flush_queue, queue_frame,
  send_messages, new_deliveries, with_engine,
}
use twitter_client_server.Stomp.Protocol.{
  on_connect, on_subscribe, on_unsubscribe, on_send, on_end, with_header, on_request, on_authorized,
  process_frame, process_message, respond, receive, please_login, is_connected_frame,
}
use twitter_client_server.Stomp.Service.{with_engine_lem, respond-Writes}
use twitter_client_server.Stomp.Rounds.{Round, run}

-- `Mixed messages answers frames`: the frames are the messages and the answers, each in their order.
pub data Mixed : List Frame → List Frame → List Frame → Type 0 where
  nothing : Mixed [] [] []
  a_message :
      (f : Frame) {ms xs fs : List Frame} → Mixed ms xs fs → Mixed (ms ++ f ∷ []) xs (fs ++ f ∷ [])
  an_answer :
      (f : Frame) {ms xs fs : List Frame} → Mixed ms xs fs → Mixed ms (xs ++ f ∷ []) (fs ++ f ∷ [])

-- Of the messages of a connection the first ones were written, mixed with the answers, and the others
-- wait, each once and in order.
pub record Flow (ms xs fs waiting : List Frame) : Type 0 where
  pub front : List Frame
  pub split : ms ≡ front ++ waiting
  pub mixed : Mixed front xs fs

-- The MESSAGE frames of a connection for what the engine sent in a call.
abbrev pub frames_for : Moment → ℕ → List Delivery → List Frame
frames_for w b [] = []
frames_for w b (d ∷ ds) =
    let rest = frames_for w b ds in
    let m = d.content in
    if d.connection == b
    then (message_frame w.timestamp (topics_location ++ m.destination) m.subscription_id w.uuid
          m.message
        ∷ rest)
    else rest

abbrev pub answer_at : ℕ → ℕ → Option Frame → List Frame
answer_at c b none = []
answer_at c b (some f) = if c == b then f ∷ [] else []

-- Over rounds: the messages that the engine sent to a connection, and the answers there.
unfoldable pub delivered : List Round → Server → ℕ → List Frame
unfolding receive
delivered [] s b = []
delivered (r ∷ rs) s b =
    let t = receive r.moment r.connection r.frame s in
    frames_for r.moment b (new_deliveries (s.engine).sent (t.engine).sent) ++ delivered rs t b

unfoldable pub answers : List Round → Server → ℕ → List Frame
unfolding receive process_message
answers [] s b = []
answers (r ∷ rs) s b =
    answer_at r.connection b (process_message r.moment r.connection r.frame s).1
    ++ answers rs (receive r.moment r.connection r.frame s) b

mixed_written :
    (q : List Frame) {ms xs fs : List Frame} → Mixed ms xs fs → Mixed (ms ++ q) xs (fs ++ q)
mixed_written [] {ms} {xs} {fs} m =
    subst (λ x. Mixed x xs (fs ++ [])) (sym (append-nil ms))
      (subst (λ x. Mixed ms xs x) (sym (append-nil fs)) m)
mixed_written (f ∷ q) {ms} {xs} {fs} m =
    subst (λ x. Mixed x xs (fs ++ f ∷ q)) (append_assoc ms (f ∷ []) q)
      (subst (λ x. Mixed ((ms ++ f ∷ []) ++ q) xs x) (append_assoc fs (f ∷ []) q)
        (mixed_written q (a_message f m)))

Flow-flushed : {ms xs fs q : List Frame} → Flow ms xs fs q → Flow ms xs (fs ++ q) []
Flow-flushed {ms} {xs} {fs} {q} v = record {
  front = ms;
  split = sym (append-nil ms);
  mixed = subst (λ x. Mixed x xs (fs ++ q)) (sym v.split) (mixed_written q v.mixed);
}

Flow-queued :
    (f : Frame) {ms xs fs q : List Frame}
    → Flow ms xs fs q
    → Flow (ms ++ f ∷ []) xs fs (q ++ f ∷ [])
Flow-queued f {ms} {xs} {fs} {q} v = record {
  front = v.front;
  split = ap (λ x. x ++ f ∷ []) v.split ∙ append_assoc v.front q (f ∷ []);
  mixed = v.mixed;
}

pub Flow-answered :
    (f : Frame) {ms xs fs q : List Frame}
    → Flow ms xs fs q
    → Flow ms (xs ++ f ∷ []) (fs ++ f ∷ []) q
Flow-answered f v = record { front = v.front; split = v.split; mixed = an_answer f v.mixed }

-- The frames of the connection `b` in a state of the server.
unfoldable pub Flows : ℕ → List Frame → List Frame → Server → Type 0
Flows b ms xs s = Flow ms xs (s.written b) (s.messages_queue b)

abbrev flushed : ℕ → Server → Server
flushed c s = record s {
  written = update s.written c (s.written c ++ s.messages_queue c);
  messages_queue = update s.messages_queue c [];
}

abbrev queued : ℕ → Frame → Server → Server
queued c f s = record s {
  messages_queue = update s.messages_queue c (s.messages_queue c ++ f ∷ []);
}

abbrev pub put_on : ℕ → Frame → Server → Server
put_on c f s = record s { written = update s.written c (s.written c ++ f ∷ []) }

abbrev one_at : ℕ → ℕ → Frame → List Frame
one_at c b f = if c == b then f ∷ [] else []

pub same_connection : (c b : ℕ) → (c == b) ≡ true → b ≡ c
same_connection c b y = ground arith

flushed-Flows :
    (c b : ℕ) (ms xs : List Frame) (s : Server) → Flows b ms xs s → Flows b ms xs (flushed c s)
unfolding Flows
flushed-Flows c b ms xs s v = elim (Bool-cases (c == b)) [
  | inl y ↦ rw y (
      subst (λ (k : ℕ). Flow ms xs (s.written k ++ s.messages_queue k) []) (same_connection c b y)
        (Flow-flushed v))
  | inr n ↦ rw n v
]

pub if-Flows :
    (x : Bool) (b : ℕ) (ms xs : List Frame) (s t : Server)
    → Flows b ms xs s
    → Flows b ms xs t
    → Flows b ms xs (if x then s else t)
if-Flows true b ms xs s t v w = v
if-Flows false b ms xs s t v w = w

pub flush_queue-Flows :
    (c b : ℕ) (ms xs : List Frame) (s : Server) → Flows b ms xs s → Flows b ms xs (flush_queue c s)
unfolding flush_queue
flush_queue-Flows c b ms xs s v =
    if-Flows (is_authorized c s) b ms xs (flushed c s) s (flushed-Flows c b ms xs s v) v

queued-Flows :
    (c b : ℕ) (f : Frame) (ms xs : List Frame) (s : Server)
    → Flows b ms xs s
    → Flows b (ms ++ one_at c b f) xs (queued c f s)
unfolding Flows
queued-Flows c b f ms xs s v = elim (Bool-cases (c == b)) [
  | inl y ↦ rw y (
      subst (λ (k : ℕ). Flow (ms ++ f ∷ []) xs (s.written b) (s.messages_queue k ++ f ∷ []))
        (same_connection c b y) (Flow-queued f v))
  | inr n ↦ rw (n, append-nil ms) v
]

queue_frame-Flows :
    (c b : ℕ) (f : Frame) (ms xs : List Frame) (s : Server)
    → Flows b ms xs s
    → Flows b (ms ++ one_at c b f) xs (queue_frame c f s)
unfolding queue_frame
queue_frame-Flows c b f ms xs s v =
    flush_queue-Flows c b (ms ++ one_at c b f) xs (queued c f s) (queued-Flows c b f ms xs s v)

send_messages-Flows :
    (w : Moment) (ds : List Delivery) (b : ℕ) (ms xs : List Frame) (s : Server)
    → Flows b ms xs s
    → Flows b (ms ++ frames_for w b ds) xs (send_messages w ds s)
unfolding send_messages
send_messages-Flows w [] b ms xs s v = subst (λ x. Flows b x xs s) (sym (append-nil ms)) v
send_messages-Flows w (d ∷ ds) b ms xs s v =
    let m = d.content in
    let f =
      message_frame w.timestamp (topics_location ++ m.destination) m.subscription_id w.uuid
        m.message in
    subst (λ x. Flows b x xs (send_messages w ds (queue_frame d.connection f s)))
      (append_assoc ms (one_at d.connection b f) (frames_for w b ds) ∙ joined m f)
      (send_messages-Flows w ds b (ms ++ one_at d.connection b f) xs (queue_frame d.connection f s)
        (queue_frame-Flows d.connection b f ms xs s v))
  where
    joined :
        (m : Message) (f : Frame)
        → (ms ++ (one_at d.connection b f ++ frames_for w b ds))
          ≡ (ms ++ (if d.connection == b then f ∷ frames_for w b ds else frames_for w b ds))
    joined m f = elim (Bool-cases (d.connection == b)) [ inl y ↦ rw y refl | inr n ↦ rw n refl ]

-- What a call sends goes to the connections, and nothing else does.
unfoldable pub Puts : Moment → Server → Server → Type 0
unfolding Flows
Puts w s t =
    (b : ℕ) (ms xs : List Frame)
    → Flows b ms xs s
    → Flows b (ms ++ frames_for w b (new_deliveries (s.engine).sent (t.engine).sent)) xs t

new_deliveries-same : (ds : List Delivery) → new_deliveries ds ds ≡ []
new_deliveries-same [] = refl
new_deliveries-same (d ∷ ds) = new_deliveries-same ds

-- A state with the same frames, where the engine sent nothing.
pub quiet-Puts :
    (w : Moment) (s t : Server)
    → (t.engine).sent ≡ (s.engine).sent
    → ((b : ℕ) (ms xs : List Frame) → Flows b ms xs s → Flows b ms xs t)
    → Puts w s t
unfolding Puts
quiet-Puts w s t e keep b ms xs v =
    subst (λ ds. Flows b (ms ++ frames_for w b (new_deliveries (s.engine).sent ds)) xs t) (sym e)
      (subst (λ ds. Flows b (ms ++ frames_for w b ds) xs t)
        (sym (new_deliveries-same (s.engine).sent))
        (subst (λ x. Flows b x xs t) (sym (append-nil ms)) (keep b ms xs v)))

pub Puts-refl : (w : Moment) (s : Server) → Puts w s s
Puts-refl w s = quiet-Puts w s s refl (λ b ms xs v. v)

pub with_engine-Puts : (w : Moment) (e : Engine) (s : Server) → Puts w s (with_engine w e s)
unfolding Puts
with_engine-Puts w e s b ms xs v =
    subst
      (λ (k : Engine).
        Flows b (ms ++ frames_for w b (new_deliveries (s.engine).sent k.sent)) xs
          (with_engine w e s))
      (sym (with_engine_lem w e s).0)
      (unfold with_engine in
        send_messages-Flows w (new_deliveries (s.engine).sent e.sent) b ms xs
          (record s { engine = e }) (unfold Flows in v))
