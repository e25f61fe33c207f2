-- ===== src/Stomp/Locked.antt =====
-- A connection with no login, in twitterEngine/src/spl/stomp/protocol/StompProtocol.java, and the
-- bytes of an answer in twitterReactorServer/src/spl/twitter/tokenizer/StompFrameTokenizer.java.
use twitter_client_server.Prelude.{
  ℕ, ◌≡◌, ◌≢◌, refl, Option, none, some, List, [], ◌∷◌, ◌++◌, ◌==◌, ◌∙◌, ap, All, Bool-cases, inl,
  inr,
}
use twitter_client_server.Prelude.Text.{Text}
use twitter_client_server.Stomp.{
  Command, Frame, send, subscribe, unsubscribe, disconnect, connect, message, connected, receipt,
  error, print, delimiter,
}
use twitter_client_server.Stomp.Server.{Moment, Server}
use twitter_client_server.Stomp.Service.{Writes, respond-Writes}
use twitter_client_server.Stomp.Rounds.{Round, run}
use twitter_client_server.Stomp.Protocol.{
  on_authorized, on_end, process_frame, process_message, receive,
}
use twitter_client_server.Stomp.Lines.{Lacks}
use twitter_client_server.Stomp.RoundTrip.{print_text}
use twitter_client_server.Stomp.Chunks.{pieces}
use twitter_client_server.Stomp.Wire.{print_lem, pieces_past}
use mathlib.Core.List.{append_assoc}

-- A frame that does not ask for a login.
abbrev pub AsksNoLogin : Round → Type 0
AsksNoLogin r = elim r.frame [ none ↦ Unit | some f ↦ f.command ≢ connect ]

-- The engine is as before, and no connection has a login.
record IsLocked (s t : Server) : Type 0 where
  engine : t.engine ≡ s.engine
  locked : (b : ℕ) → t.current_user b ≡ none

module _ (w : Moment) (c : ℕ) (f : Frame) (s : Server)
    (out : (b : ℕ) → s.current_user b ≡ none) where
  on_authorized-IsLocked : (command : Command) → IsLocked s (on_authorized w c f command s).0
  unfolding on_authorized
  on_authorized-IsLocked command =
      rw (out c, on_authorized) (record { engine = refl; locked = out })

  on_end-IsLocked : IsLocked s (on_end c f s).0
  unfolding on_end
  on_end-IsLocked = record {
    engine = rw (out c) refl;
    locked = λ b. elim (Bool-cases (c == b)) [ inl y ↦ rw y refl | inr n ↦ rw n (out b) ];
  }

  process_frame-IsLocked :
      (command : Command) → command ≢ connect → IsLocked s (process_frame w c f command s).0
  unfolding process_frame
  process_frame-IsLocked error h = record { engine = refl; locked = out }
  process_frame-IsLocked disconnect h = on_end-IsLocked
  process_frame-IsLocked connect h = absurd (h refl)
  process_frame-IsLocked send h = on_authorized-IsLocked send
  process_frame-IsLocked subscribe h = on_authorized-IsLocked subscribe
  process_frame-IsLocked unsubscribe h = on_authorized-IsLocked unsubscribe
  process_frame-IsLocked message h = on_authorized-IsLocked message
  process_frame-IsLocked connected h = on_authorized-IsLocked connected
  process_frame-IsLocked receipt h = on_authorized-IsLocked receipt

receive-IsLocked :
    (r : Round) (s : Server)
    → AsksNoLogin r
    → ((b : ℕ) → s.current_user b ≡ none)
    → IsLocked s (receive r.moment r.connection r.frame s)
unfolding receive
receive-IsLocked r s h out = record {
  engine = answered.engine ∙ told.engine;
  locked = λ b. ap (λ (k : ℕ → Option Text). k b) answered.current_user ∙ told.locked b;
}
  where
    by :
        (o : Option Frame)
        → AsksNoLogin (record r { frame = o })
        → IsLocked s (process_message r.moment r.connection o s).0
    by none a = unfold process_message in record { engine = refl; locked = out }
    by (some f) a =
        unfold process_message in process_frame-IsLocked r.moment r.connection f s out f.command a

    told : IsLocked s (process_message r.moment r.connection r.frame s).0
    told = by r.frame h

    answered :
        Writes
          (process_message r.moment r.connection r.frame s).0
          (receive r.moment r.connection r.frame s)
    answered = respond-Writes r.connection _ _

-- While no connection has a login and no frame is a CONNECT, no sequence of frames on any connections,
-- malformed ones included, changes anything of the engine, and no connection gets a login.
pub run_locked :
    (rs : List Round) (s : Server)
    → All AsksNoLogin rs
    → ((b : ℕ) → s.current_user b ≡ none)
    → ((run rs s).engine ≡ s.engine) × ((b : ℕ) → (run rs s).current_user b ≡ none)
unfolding run
run_locked [] s all out = (refl, out)
run_locked (r ∷ rs) s (h, all) out =
    let first = receive-IsLocked r s h out in
    let rest = run_locked rs (receive r.moment r.connection r.frame s) all first.locked in
    (rest.0 ∙ first.engine, rest.1)

-- `getBytesForMessage`
unfoldable pub bytes_for_message : Frame → Text
unfolding print
bytes_for_message f = print f ++ delimiter

-- The bytes of an answer end in two delimiters: a reader that cuts at delimiters finds the frame, and
-- then an empty message.
pub bytes_for_message-pieces :
    (f : Frame)
    → Lacks 0 (print_text f)
    → pieces [] (bytes_for_message f) ≡ (print_text f ∷ [] ∷ [], [])
unfolding bytes_for_message
bytes_for_message-pieces f h =
    ap (λ s. pieces [] (s ++ delimiter)) (print_lem f)
    ∙ ap (pieces []) (append_assoc (print_text f) delimiter delimiter)
    ∙ pieces_past (print_text f) [] delimiter h
    ∙ unfold pieces in refl
