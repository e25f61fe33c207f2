-- ===== src/Stomp/Wire.antt =====
-- From the frames that a client writes to the frames that the server reads: `sendFrame` of
-- twitterClient/twitterClient/src/stomp/TwitterClient.cpp, and `parse` of StompFrame.java in
-- twitterEngine/src/spl/stomp/protocol, over the tokenizer of twitterReactorServer.
use mathlib.Core.List.{append_assoc, append-nil}
use twitter_client_server.Prelude.{
  ℕ, ◌≡◌, refl, true, Option, none, some, List, [], ◌∷◌, ◌++◌, arith, All, ◌∙◌, ap,
}
use twitter_client_server.Prelude.Text.{Text, AreUnique}
use twitter_client_server.Stomp.{
  Frame, missing_header, mandatory_headers, print, delimiter, newline,
}
use twitter_client_server.Stomp.Parse.{is_request, parse}
use twitter_client_server.Stomp.Lines.{Lacks, IsPlain}
use twitter_client_server.Stomp.RoundTrip.{print_text, frame_text, parse-frame_text}
use twitter_client_server.Stomp.Client.{
  body_text, send_line, send_lines, received_body, send_line_lem, body_text-Reads,
}
use twitter_client_server.Stomp.Tokenizer.{fresh_tokenizer, read_chunks}
use twitter_client_server.Stomp.Chunks.{pieces, decoded, read_chunks-pieces}

-- The text of a frame as a client writes it, before the delimiter.
abbrev pub client_text : Frame → Text
client_text f = frame_text f (body_text f.body)

-- A request of a client: its mandatory headers are there, each header is plain and of a key of its
-- own, and no delimiter stands in its text.
pub record IsRequest (f : Frame) : Type 0 where
  pub request : is_request f.command ≡ true
  pub whole : missing_header (mandatory_headers f.command) f ≡ none
  pub plain : All IsPlain f.headers
  pub unique : AreUnique f.headers
  pub no_delimiter : Lacks 0 (client_text f)

pub print_lem : (f : Frame) → print f ≡ print_text f ++ delimiter
unfolding print
print_lem f = simp append_assoc

unfoldable pub parse_all : List Text → List (Option Frame)
unfolding parse
parse_all [] = []
parse_all (m ∷ ms) = parse m ∷ parse_all ms

unfoldable pub as_read : List Frame → List (Option Frame)
unfolding received_body
as_read [] = []
as_read (f ∷ fs) = some (record f { body = received_body f.body }) ∷ as_read fs

-- What stays: the line break behind the last frame, or what was there before.
abbrev pub left_over : Text → List Frame → Text
left_over current [] = current
left_over current (f ∷ fs) = newline

pub pieces_past :
    (m current rest : Text)
    → Lacks 0 m
    → pieces current (m ++ (delimiter ++ rest))
      ≡ ((current ++ m) ∷ (pieces [] rest).0, (pieces [] rest).1)
unfolding pieces
pieces_past [] current rest h = rw append-nil refl
pieces_past (c ∷ m) current rest h =
    ground (arith, h.0, pieces_past m (current ++ c ∷ []) rest h.1, append_assoc current (c ∷ []) m)

pieces-newline : (rest : Text) → pieces [] (newline ++ rest) ≡ pieces newline rest
unfolding pieces
pieces-newline rest = refl

-- The pieces behind `current`, an empty text or the line break of the frame before.
pieces-send_line :
    (f : Frame) (current rest : Text)
    → IsRequest f
    → pieces current (send_line f ++ rest)
      ≡ ((current ++ client_text f) ∷ (pieces newline rest).0, (pieces newline rest).1)
pieces-send_line f current rest p =
    ap (λ s. pieces current (s ++ rest)) (send_line_lem f)
    ∙ ap (pieces current) (append_assoc (client_text f) (delimiter ++ newline) rest)
    ∙ pieces_past (client_text f) current (newline ++ rest) p.no_delimiter
    ∙ ap (λ (r : List Text × Text). ((current ++ client_text f) ∷ r.0, r.1)) (pieces-newline rest)

read_request :
    (f : Frame)
    → IsRequest f
    → (parse (client_text f) ≡ some (record f { body = received_body f.body }))
      × (parse (newline ++ client_text f) ≡ some (record f { body = received_body f.body }))
read_request f p =
    parse-frame_text f (body_text f.body) (received_body f.body) p.request p.whole p.plain p.unique
      (body_text-Reads f.body)

-- `current` with the text of each frame is read as the frame.
Begins : Text → Type 0
Begins current =
    (f : Frame)
    → IsRequest f
    → parse (current ++ client_text f) ≡ some (record f { body = received_body f.body })

pieces-send_lines :
    (fs : List Frame) (current : Text)
    → Begins current
    → All IsRequest fs
    → (parse_all (pieces current (send_lines fs)).0 ≡ as_read fs)
      × ((pieces current (send_lines fs)).1 ≡ left_over current fs)
unfolding send_lines parse_all as_read Begins
pieces-send_lines [] current begins all = unfold pieces in (refl, refl)
pieces-send_lines (f ∷ fs) current begins (p, ps) =
    let below = pieces-send_lines fs newline (λ g q. (read_request g q).1) ps in
    rw (pieces-send_line f current (send_lines fs) p) (
      ap (λ o. o ∷ parse_all (pieces newline (send_lines fs)).0) (begins f p)
          ∙ ap (λ os. some (record f { body = received_body f.body }) ∷ os) below.0,
      below.1 ∙ newline_left fs,
    )
  where
    newline_left : (fs : List Frame) → left_over newline fs ≡ newline
    newline_left [] = refl
    newline_left (g ∷ gs) = refl

-- When frames are requests (`IsRequest`), the server reads from their text as a client writes it,
-- however that is cut into chunks, these frames, each once and in order: the line break that follows
-- each delimiter is passed over, and the one behind the last frame alone stays in the buffer. A body of
-- line breaks alone comes back empty, any other with a tab before it and its lines, trimmed, with a tab
-- behind each.
pub read_chunks-send_lines :
    (decode : List ℕ → Text) (bs : List (List ℕ)) (fs : List Frame)
    → All IsRequest fs
    → decoded decode bs ≡ send_lines fs
    → (parse_all (read_chunks decode bs fresh_tokenizer).0 ≡ as_read fs)
      × ((read_chunks decode bs fresh_tokenizer).1.string_buf ≡ left_over [] fs)
unfolding Begins
read_chunks-send_lines decode bs fs all same =
    rw (read_chunks-pieces decode bs, same)
      (pieces-send_lines fs [] (λ f p. (read_request f p).0) all)
