-- ===== src/Stomp/Server.antt =====
-- The server of twitterEngine with its connections: the frames that wait and those that were written,
-- as ConnectionHandler in twitterReactorServer/src/spl/twitter/reactor and in
-- twitterThreadPerClientServer/src/spl/twitter/server handles them. Connections are numbered.
use twitter_client_server.Prelude.{
  ℕ, ◌-◌, Bool, true, false, Option, none, some, List, [], ◌∷◌, ◌++◌, ◌==◌, if◌then◌else◌, length,
}
use twitter_client_server.Prelude.Text.{Text, codes}
use twitter_client_server.Engine.{Engine, Delivery}
use twitter_client_server.Engine.Calls.{new_engine}
use twitter_client_server.Engine.Mentions.{starts_with}
use twitter_client_server.Stomp.{Frame, message_frame}

-- What the clock, the random ids and `getStats` give in one call.
pub record Moment : Type 0 where
  pub uuid : Text
  pub timestamp : Text
  pub report : Text

-- The one engine, and of each connection its user, its state and its frames: those that wait for
-- the CONNECTED frame and those that were written.
pub record Server : Type 0 where
  pub engine : Engine
  pub current_user : ℕ → Option Text
  pub should_close : ℕ → Bool
  pub messages_queue : ℕ → List Frame
  pub written : ℕ → List Frame

abbrev pub new_server : Server
new_server = record {
  engine = new_engine;
  current_user = λ c. none;
  should_close = λ c. false;
  messages_queue = λ c. [];
  written = λ c. [];
}

abbrev pub update {ℓ} : {A : Type ℓ} → (ℕ → A) → ℕ → A → ℕ → A
update f c v k = if c == k then v else f k

abbrev pub topics_location : Text
topics_location = codes "/topic/"

-- `replace(pattern, "")`; `skip` counts the rest of an occurrence.
unfoldable pub erase_from : Text → ℕ → Text → Text
erase_from pattern skip [] = []
erase_from pattern skip (c ∷ s) =
    let inside = erase_from pattern (skip - 1) s in
    let begins = erase_from pattern (length pattern - 1) s in
    let outside = erase_from pattern 0 s in
    if skip == 0 then if starts_with pattern (c ∷ s) then begins else c ∷ outside else inside

unfoldable pub topic_name_of : Text → Text
unfolding erase_from
topic_name_of destination = erase_from topics_location 0 destination

-- `isAuthorized`
abbrev pub is_authorized : ℕ → Server → Bool
is_authorized c s = elim (s.current_user c) [ none ↦ false | some u ↦ true ]

-- `ConnectionHandler.flushMessages` and `send`
unfoldable pub flush_queue : ℕ → Server → Server
flush_queue c s =
    if is_authorized c s
    then record s {
      written = update s.written c (s.written c ++ s.messages_queue c);
      messages_queue = update s.messages_queue c [];
    }
    else s

unfoldable pub queue_frame : ℕ → Frame → Server → Server
queue_frame c f s =
    flush_queue c
      (record s { messages_queue = update s.messages_queue c (s.messages_queue c ++ f ∷ []) })

-- `StompProtocol.sendMessage`, for what the engine sent in a call.
unfoldable pub send_messages : Moment → List Delivery → Server → Server
send_messages w [] s = s
send_messages w (d ∷ ds) s =
    let m = d.content in
    send_messages w ds (
      queue_frame d.connection
        (message_frame w.timestamp (topics_location ++ m.destination) m.subscription_id w.uuid
          m.message)
        s)

abbrev pub new_deliveries : List Delivery → List Delivery → List Delivery
new_deliveries [] ds = ds
new_deliveries (e ∷ es) [] = []
new_deliveries (e ∷ es) (d ∷ ds) = new_deliveries es ds

unfoldable pub with_engine : Moment → Engine → Server → Server
with_engine w e s =
    send_messages w (new_deliveries (s.engine).sent e.sent) (record s { engine = e })
