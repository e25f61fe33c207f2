-- ===== src/Stomp/Service.antt =====
-- The server over any sequence of frames: the links of the engine, the sessions, and what every user
-- is sent. twitterEngine/src/spl/stomp/protocol/StompProtocol.java over spl/twitter/engine.
use mathlib.Core.List.{append-nil}
use twitter_client_server.Prelude.{
  ℕ, ◌≡◌, refl, Bool, true, false, Option, none, some, List, [], ◌∷◌, ◌++◌, arith, if◌then◌else◌,
  inl, inr, ◌⊎◌, Bool-cases, ◌∙◌, sym, ap, subst,
}
use twitter_client_server.Prelude.Text.{Text, codes, mem_text, mem_text-append, eq_text_refl}
use twitter_client_server.Engine.{Message, Engine, Delivery}
use twitter_client_server.Engine.Calls
use twitter_client_server.Engine.Calls.{Authorization, authorized, refused, connect_known}
use twitter_client_server.Engine.Inbox.{inbox}
use twitter_client_server.Engine.Sound.{IsLinked, new_engine-IsLinked}
use twitter_client_server.Engine.Linked.{connect-Serves}
use twitter_client_server.Engine.Posted.{Posts, copies_of_post}
use twitter_client_server.Engine.Created.{create_user_rest}
use twitter_client_server.Stomp.{
  Command, Frame, send, subscribe, unsubscribe, disconnect, connect, message, connected, receipt,
  error, header,
}
use twitter_client_server.Stomp.Server.{
  Moment, Server, new_server, update, topic_name_of, flush_queue, queue_frame, send_messages,
  with_engine,
}
use twitter_client_server.Stomp.Protocol.{respond, is_connected_frame}

-- What writing and queueing frames leaves alone.
pub record Writes (s t : Server) : Type 0 where
  pub engine : t.engine ≡ s.engine
  pub current_user : t.current_user ≡ s.current_user

pub Writes-refl : (s : Server) → Writes s s
Writes-refl s = record { engine = refl; current_user = refl }

pub Writes-trans : {r s t : Server} → Writes r s → Writes s t → Writes r t
Writes-trans a b = record {
  engine = b.engine ∙ a.engine;
  current_user = b.current_user ∙ a.current_user;
}

pub flush_queue-Writes : (c : ℕ) (s : Server) → Writes s (flush_queue c s)
unfolding flush_queue
flush_queue-Writes c s = ground arith

pub queue_frame-Writes : (c : ℕ) (f : Frame) (s : Server) → Writes s (queue_frame c f s)
unfolding queue_frame
queue_frame-Writes c f s =
    let w =
      flush_queue-Writes c
        (record s { messages_queue = update s.messages_queue c (s.messages_queue c ++ f ∷ []) }) in
    record { engine = w.engine; current_user = w.current_user }

pub send_messages-Writes :
    (w : Moment) (ds : List Delivery) (s : Server) → Writes s (send_messages w ds s)
unfolding send_messages
send_messages-Writes w [] s = Writes-refl s
send_messages-Writes w (d ∷ ds) s =
    Writes-trans (queue_frame-Writes _ _ s) (send_messages-Writes w ds _)

pub with_engine_lem :
    (w : Moment) (e : Engine) (s : Server)
    → ((with_engine w e s).engine ≡ e) × ((with_engine w e s).current_user ≡ s.current_user)
unfolding with_engine
with_engine_lem w e s =
    let q = send_messages-Writes w _ (record s { engine = e }) in (q.engine, q.current_user)

pub respond-Writes : (c : ℕ) (f : Option Frame) (s : Server) → Writes s (respond c f s)
unfolding respond
respond-Writes c none s = Writes-refl s
respond-Writes c (some f) s = by (is_connected_frame f.command)
  where
    sent : Server
    sent = record s { written = update s.written c (s.written c ++ f ∷ []) }

    by : (b : Bool) → Writes s (if b then flush_queue c sent else sent)
    by true =
        let q = flush_queue-Writes c sent in
        record { engine = q.engine; current_user = q.current_user }
    by false = record { engine = refl; current_user = refl }

-- The engine's links hold, and a session belongs to a user of the engine.
pub record IsServed (s : Server) : Type 0 where
  pub linked : IsLinked s.engine
  pub session : (c : ℕ) (u : Text) → s.current_user c ≡ some u → mem_text u (s.engine).users ≡ true

-- A round takes `s` to `t` and gives each user the messages `added`.
pub record Gives (s t : Server) (added : Text → List Message) : Type 0 where
  pub served : IsServed t
  pub known : (u : Text) → mem_text u (s.engine).users ≡ true → mem_text u (t.engine).users ≡ true
  pub grown :
      (u : Text)
      → mem_text u (s.engine).users ≡ true
      → inbox t.engine u ≡ inbox s.engine u ++ added u

abbrev pub nothing : Text → List Message
nothing u = []

pub Gives-refl : (s : Server) → IsServed s → Gives s s nothing
Gives-refl s k = record {
  served = k;
  known = λ u h. h;
  grown = λ u h. sym (append-nil (inbox s.engine u));
}

-- A round that puts the engine `e` in and, at most, a session of a user whom `e` knows.
pub Gives-of_Posts :
    (s t : Server) (e : Engine) (added : Text → List Message)
    → IsServed s
    → Posts s.engine e added
    → t.engine ≡ e
    → ((c : ℕ) (u : Text)
        → t.current_user c ≡ some u
        → (s.current_user c ≡ some u) ⊎ (mem_text u e.users ≡ true))
    → Gives s t added
Gives-of_Posts s t e added k p same old = record {
  served = record {
    linked = subst IsLinked (sym same) p.linked;
    session = λ c u h. elim (old c u h) [
      | inl was ↦ rw same (p.known u (k.session c u was))
      | inr now ↦ rw same now
    ];
  };
  known = λ u h. rw same (p.known u h);
  grown = λ u h. rw same (p.grown u h);
}

pub Gives-at :
    (s t v : Server) (added : Text → List Message) → Writes t v → Gives s t added → Gives s v added
Gives-at s t v added w g = record {
  served = record {
    linked = subst IsLinked (sym w.engine) g.served.linked;
    session = λ c u h. rw (w.engine) (
        g.served.session c u (ground (arith, h, ap (λ (f : ℕ → Option Text). f c) w.current_user)));
  };
  known = λ u h. rw (w.engine) (g.known u h);
  grown = λ u h. rw (w.engine) (g.grown u h);
}

pub authorized_name :
    (name passcode : Text) (c : ℕ) (e : Engine) (u : Text)
    → (Calls.connect name passcode c e).1 ≡ authorized u
    → name ≡ u
unfolding Calls.connect connect_known
authorized_name name passcode c e u h = ground (arith, h)

pub authorized_known :
    (name passcode : Text) (c : ℕ) (e : Engine) (u : Text)
    → IsLinked e
    → (Calls.connect name passcode c e).1 ≡ authorized u
    → mem_text u (Calls.connect name passcode c e).0.users ≡ true
authorized_known name passcode c e u k h =
    subst (λ n. mem_text n (Calls.connect name passcode c e).0.users ≡ true)
      (authorized_name name passcode c e u h)
      (elim (Bool-cases (mem_text name e.users)) [
        | inl old ↦ (connect-Serves name passcode c e k).known name old
        | inr new ↦ first new
      ])
  where
    first :
        mem_text name e.users ≡ false
        → mem_text name (Calls.connect name passcode c e).0.users ≡ true
    first new =
        unfold Calls.connect in
        rw (new, (create_user_rest name passcode c e).0)
          (unfold mem_text in
            ground (arith, new, mem_text-append name e.users (name ∷ []), eq_text_refl name))

-- What a frame on a connection gives a user, told by the followers' view: a post of the user who is
-- logged in there gives the copies of that post, and nothing else gives anything.
abbrev pub sent_by : Moment → Option Text → Option Text → Text → Engine → Text → List Message
sent_by w none destination body e u = []
sent_by w (some user) none body e u = []
sent_by w (some user) (some d) body e u = copies_of_post w.report user (topic_name_of d) body e u

abbrev pub frame_gives : Moment → ℕ → Frame → Command → Server → Text → List Message
frame_gives w c f send s u =
    sent_by w (s.current_user c) (header (codes "destination") f) f.body s.engine u
frame_gives w c f subscribe s u = []
frame_gives w c f unsubscribe s u = []
frame_gives w c f disconnect s u = []
frame_gives w c f connect s u = []
frame_gives w c f message s u = []
frame_gives w c f connected s u = []
frame_gives w c f receipt s u = []
frame_gives w c f error s u = []

unfoldable pub gives : Moment → ℕ → Option Frame → Server → Text → List Message
unfolding copies_of_post
gives w c none s u = []
gives w c (some f) s u = frame_gives w c f f.command s u

pub kept_sessions :
    (w : Moment) (e : Engine) (s : Server) (c : ℕ) (u : Text)
    → (with_engine w e s).current_user c ≡ some u
    → (s.current_user c ≡ some u) ⊎ (mem_text u e.users ≡ true)
kept_sessions w e s c u h =
    inl (ground (arith, h, ap (λ (f : ℕ → Option Text). f c) (with_engine_lem w e s).1))

pub with_engine-Gives :
    (w : Moment) (e : Engine) (s : Server) (added : Text → List Message)
    → IsServed s
    → Posts s.engine e added
    → Gives s (with_engine w e s) added
with_engine-Gives w e s added k p =
    Gives-of_Posts s (with_engine w e s) e added k p (with_engine_lem w e s).0 (kept_sessions w e s)

pub new_server-IsServed : IsServed new_server
new_server-IsServed = record { linked = new_engine-IsLinked; session = λ c u h. absurd (cc) }
