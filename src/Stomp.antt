-- ===== src/Stomp.antt =====
-- The frames of twitterEngine/src/spl/stomp/protocol: StompCommand, StompFrame and its subclasses,
-- StompException, and the print of a frame. Headers keep the order in which they were added, which
-- a HashMap leaves open.
pub mod Chunks
pub mod Client
pub mod Examples
pub mod Frames
pub mod Headers
pub mod Lines
pub mod Locked
pub mod Parse
pub mod Protocol
pub mod RoundTrip
pub mod Rounds
pub mod Server
pub mod Service
pub mod Tokenizer
pub mod Wire
use twitter_client_server.Prelude.{
  Bool, true, false, Option, none, some, List, [], ◌∷◌, ◌++◌, if◌then◌else◌,
}
use twitter_client_server.Prelude.Text.{Text, codes, eq_text, lookup, insert}

pub data Command : Type 0 where
  send : Command
  subscribe : Command
  unsubscribe : Command
  disconnect : Command
  connect : Command
  message : Command
  connected : Command
  receipt : Command
  error : Command

abbrev pub command_text : Command → Text
command_text send = codes "SEND"
command_text subscribe = codes "SUBSCRIBE"
command_text unsubscribe = codes "UNSUBSCRIBE"
command_text disconnect = codes "DISCONNECT"
command_text connect = codes "CONNECT"
command_text message = codes "MESSAGE"
command_text connected = codes "CONNECTED"
command_text receipt = codes "RECEIPT"
command_text error = codes "ERROR"

pub record Frame : Type 0 where
  pub command : Command
  pub headers : List (Text × Text)
  pub body : Text

abbrev pub header : Text → Frame → Option Text
header k f = lookup k f.headers

unfoldable pub add_frame_header : Text → Text → Frame → Frame
add_frame_header k v f = record f { headers = insert k v f.headers }

abbrev pub empty_frame : Command → Frame
empty_frame c = record { command = c; headers = []; body = [] }

-- `new ErrorFrame(message, body)`, and with no body
abbrev pub error_frame : Text → Text → Frame
error_frame summary body = record {
  command = error;
  headers = (codes "message", summary) ∷ [];
  body = body;
}

abbrev pub receipt_frame : Text → Frame
receipt_frame id = record { command = receipt; headers = (codes "receipt-id", id) ∷ []; body = [] }

abbrev pub connected_frame : Text → Frame
connected_frame session = record {
  command = connected;
  headers = (codes "session", session) ∷ (codes "version", codes "1.2") ∷ [];
  body = [];
}

abbrev pub message_frame : Text → Text → Text → Text → Text → Frame
message_frame timestamp destination subscription id body = record {
  command = message;
  headers =
      (codes "destination", destination)
      ∷ (codes "subscription", subscription)
      ∷ (codes "timestamp", timestamp)
      ∷ (codes "message-id", id)
      ∷ [];
  body = body;
}

abbrev pub connect_frame : Text → Text → Text → Frame
connect_frame host login passcode = record {
  command = connect;
  headers =
      (codes "accept-version", codes "1.2")
      ∷ (codes "host", host)
      ∷ (codes "login", login)
      ∷ (codes "passcode", passcode)
      ∷ [];
  body = [];
}

abbrev pub send_frame : Text → Text → Frame
send_frame destination body = record {
  command = send;
  headers = (codes "destination", destination) ∷ [];
  body = body;
}

abbrev pub subscribe_frame : Text → Text → Frame
subscribe_frame destination id = record {
  command = subscribe;
  headers = (codes "destination", destination) ∷ (codes "id", id) ∷ [];
  body = [];
}

abbrev pub unsubscribe_frame : Text → Frame
unsubscribe_frame id = record { command = unsubscribe; headers = (codes "id", id) ∷ []; body = [] }

abbrev pub disconnect_frame : Text → Frame
disconnect_frame id = record {
  command = disconnect;
  headers = (codes "receipt", id) ∷ [];
  body = [];
}

-- `getMandatoryHeaders` of each class
abbrev pub mandatory_headers : Command → List Text
mandatory_headers send = codes "destination" ∷ []
mandatory_headers subscribe = codes "destination" ∷ codes "id" ∷ []
mandatory_headers unsubscribe = codes "id" ∷ []
mandatory_headers disconnect = codes "receipt" ∷ []
mandatory_headers connect =
    codes "accept-version" ∷ codes "host" ∷ codes "login" ∷ codes "passcode" ∷ []
mandatory_headers message = []
mandatory_headers connected = []
mandatory_headers receipt = []
mandatory_headers error = []

-- The first mandatory header that is not there, if one is not.
unfoldable pub missing_header : List Text → Frame → Option Text
missing_header [] f = none
missing_header (k ∷ ks) f =
    let rest = missing_header ks f in elim (header k f) [ none ↦ some k | some v ↦ rest ]

-- `validate`, where the exception becomes the ERROR frame that `parse` returns.
unfoldable pub validated : Frame → Frame
unfolding missing_header
validated f = elim (missing_header (mandatory_headers f.command) f) [
  | none ↦ f
  | some k ↦
      error_frame (codes "Frame error") (k ++ codes " is a mandatory header.\nPlease try again.")
]

abbrev pub newline : Text
newline = codes "\n"

abbrev pub delimiter : Text
delimiter = 0 ∷ []

unfoldable pub print_headers : List (Text × Text) → Text
print_headers [] = []
print_headers ((k, v) ∷ hs) = k ++ (codes ":" ++ (v ++ (newline ++ print_headers hs)))

unfoldable pub print_body : Text → Text
print_body [] = []
print_body (c ∷ s) = newline ++ ((c ∷ s) ++ newline)

-- `toString`
unfoldable pub print : Frame → Text
unfolding print_headers print_body
print f =
    command_text f.command
    ++ (newline ++ (print_headers f.headers ++ (print_body f.body ++ delimiter)))
