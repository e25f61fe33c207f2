-- ===== src/Stomp/Parse.antt =====
-- `StompFrame.parse` and `StompCommand.valueOf` of twitterEngine/src/spl/stomp/protocol.
use twitter_client_server.Prelude.{
  Bool, true, false, Option, none, some, List, [], ◌∷◌, ◌++◌, ◌==◌, if◌then◌else◌,
}
use twitter_client_server.Prelude.Text.{Text, codes, eq_text}
use twitter_client_server.Engine.Mentions.{trim}
use twitter_client_server.Stomp.{
  Command, Frame, send, subscribe, unsubscribe, disconnect, connect, message, connected, receipt,
  error, add_frame_header, empty_frame, error_frame, validated,
}

-- `str.split("\n")`: the lines, without the empty ones at the end.
unfoldable pub lines_from : Text → Text → List Text
lines_from current [] = current ∷ []
lines_from current (c ∷ s) =
    let more = lines_from (current ++ c ∷ []) s in
    let next = lines_from [] s in elim (c == b'\n') [ true ↦ current ∷ next | false ↦ more ]

unfoldable pub keep_line : Text → List Text → List Text
keep_line [] [] = []
keep_line [] (l ∷ ls) = [] ∷ l ∷ ls
keep_line (c ∷ s) ls = (c ∷ s) ∷ ls

unfoldable pub drop_empty_end : List Text → List Text
unfolding keep_line
drop_empty_end [] = []
drop_empty_end (l ∷ ls) = keep_line l (drop_empty_end ls)

unfoldable pub lines : Text → List Text
unfolding lines_from drop_empty_end
lines s = drop_empty_end (lines_from [] s)

abbrev pub is_empty : Text → Bool
is_empty [] = true
is_empty (c ∷ s) = false

abbrev pub is_blank : Text → Bool
unfolding trim
is_blank s = is_empty (trim s)

-- `StompCommand.valueOf`
unfoldable pub value_of : Text → Option Command
unfolding trim
value_of line =
    let v = trim line in
    if eq_text v (codes "SEND")
    then some send
    else if eq_text v (codes "SUBSCRIBE")
    then some subscribe
    else if eq_text v (codes "UNSUBSCRIBE")
    then some unsubscribe
    else if eq_text v (codes "CONNECT")
    then some connect
    else if eq_text v (codes "MESSAGE")
    then some message
    else if eq_text v (codes "CONNECTED")
    then some connected
    else if eq_text v (codes "DISCONNECT")
    then some disconnect
    else if eq_text v (codes "RECEIPT")
    then some receipt
    else if eq_text v (codes "ERROR")
    then some error
    else none

-- Only the commands of a client make a frame.
unfoldable pub is_request : Command → Bool
is_request connect = true
is_request disconnect = true
is_request send = true
is_request subscribe = true
is_request unsubscribe = true
is_request message = false
is_request connected = false
is_request receipt = false
is_request error = false

-- The key before the first colon and the value behind it.
unfoldable pub cut_at_colon : Text → Option (Text × Text)
cut_at_colon [] = none
cut_at_colon (c ∷ s) =
    let later = cut_at_colon s in
    elim (c == b':') [
      | true ↦ some ([], s)
      | false ↦ elim later [ none ↦ none | some (k, v) ↦ some (c ∷ k, v) ]
    ]

-- A line with no colon, or a colon at its start, is passed over.
unfoldable pub put_header : Text → Frame → Frame
put_header line f = elim (cut_at_colon line) [
  | none ↦ f
  | some (k, v) ↦ if is_empty k then f else add_frame_header k v f
]

unfoldable pub join_body : List Text → Text
unfolding trim
join_body [] = []
join_body (l ∷ ls) = trim l ++ (codes "\t" ++ join_body ls)

-- Headers up to an empty line, and the body behind it.
unfoldable pub parse_headers : List Text → Frame → Frame
parse_headers [] f = record f { body = [] }
parse_headers (l ∷ ls) f =
    let next = parse_headers ls (put_header (trim l) f) in
    if is_empty (trim l) then record f { body = join_body ls } else next

unfoldable pub skip_blank : List Text → List Text
skip_blank [] = []
skip_blank (l ∷ ls) = let rest = skip_blank ls in if is_empty (trim l) then rest else l ∷ ls

abbrev pub no_command : Frame
no_command = error_frame (codes "No matching STOMP command.") []

unfoldable pub parse_request : Command → List Text → Frame
parse_request c rest =
    if is_request c then validated (parse_headers rest (empty_frame c)) else no_command

unfoldable pub parse_lines : List Text → Option Frame
parse_lines [] = none
parse_lines (l ∷ rest) = elim (value_of l) [
  | none ↦ some no_command
  | some c ↦ some (parse_request c rest)
]

-- A blank text is no frame.
unfoldable pub parse : Text → Option Frame
parse s = if is_empty (trim s) then none else parse_lines (skip_blank (lines s))
