-- ===== src/Stomp/Client.antt =====
-- How a client writes its frames: `toString` of twitterClient/twitterClient/src/stomp/frames/StompFrame.cpp,
-- and `sendFrame` of TwitterClient.cpp with `sendLine` of connectionHandler.cpp in
-- twitterClient/twitterClient/src/stomp. The headers stand in the order of the client's map.
use mathlib.Core.List.{append_assoc}
use twitter_client_server.Prelude.{◌≡◌, refl, List, [], ◌∷◌, ◌++◌, ◌∙◌, ap}
use twitter_client_server.Prelude.Text.{Text, codes}
use twitter_client_server.Engine.Mentions.{trim, trim_start}
use twitter_client_server.Stomp.{Frame, command_text, print_headers, newline, delimiter}
use twitter_client_server.Stomp.Parse.{
  lines_from, keep_line, drop_empty_end, lines, join_body, parse_headers,
}
use twitter_client_server.Stomp.Lines.{lines_from-newline}
use twitter_client_server.Stomp.Headers.{lines_from_last, drop_empty_end_last, parse_kept}
use twitter_client_server.Stomp.RoundTrip.{frame_text, Reads}

-- What the format writes behind the headers: two empty lines, the body, and a line break.
abbrev pub body_text : Text → Text
body_text b = newline ++ (newline ++ (b ++ newline))

-- `toString`: `"%s\n%s\n\n%s\n%c"` of the command, the headers, the body and the delimiter.
unfoldable pub to_string : Frame → Text
unfolding print_headers
to_string f =
    command_text f.command
    ++ (newline
        ++ (print_headers f.headers
            ++ (newline ++ (newline ++ (f.body ++ (newline ++ delimiter))))))

-- `sendFrame`, which ends in `sendLine`
unfoldable pub send_line : Frame → Text
unfolding to_string
send_line f = to_string f ++ newline

unfoldable pub send_lines : List Frame → Text
unfolding send_line
send_lines [] = []
send_lines (f ∷ fs) = send_line f ++ send_lines fs

-- What the server makes of the lines of a body: the second empty line before them is one too.
abbrev pub tabbed : List Text → Text
unfolding join_body
tabbed [] = []
tabbed (l ∷ ls) = codes "\t" ++ join_body (l ∷ ls)

unfoldable pub received_body : Text → Text
unfolding lines
received_body b = tabbed (lines b)

pub send_line_lem :
    (f : Frame) → send_line f ≡ frame_text f (body_text f.body) ++ (delimiter ++ newline)
unfolding send_line to_string
send_line_lem f = simp append_assoc

tabbed_lem : (ls : List Text) → join_body (keep_line [] ls) ≡ tabbed ls
unfolding join_body keep_line
tabbed_lem [] = refl
tabbed_lem (l ∷ ls) = unfold trim trim_start in refl

pub body_text-Reads : (b : Text) → Reads (body_text b) (received_body b)
unfolding Reads received_body lines drop_empty_end
body_text-Reads b f =
    ap (λ ls. parse_headers (drop_empty_end ls) f)
      (lines_from-newline [] (newline ++ (b ++ newline))
        ∙ ap (λ ls. [] ∷ ls)
            (lines_from-newline [] (b ++ newline) ∙ ap (λ ls. [] ∷ ls) (lines_from_last b [])))
    ∙ ap (λ ls. parse_headers (keep_line [] (keep_line [] ls)) f)
        (drop_empty_end_last (lines_from [] b))
    ∙ parse_kept (keep_line [] (drop_empty_end (lines_from [] b))) f
    ∙ ap (λ x. record f { body = x }) (tabbed_lem (drop_empty_end (lines_from [] b)))
