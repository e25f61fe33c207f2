-- ===== src/Stomp/RoundTrip.antt =====
-- A printed request is read back: `toString` and `parse` of StompFrame.java, in
-- twitterEngine/src/spl/stomp/protocol.
use mathlib.Core.List.{append-nil}
use twitter_client_server.Prelude.{
  ◌≡◌, refl, true, false, none, some, List, [], ◌∷◌, ◌++◌, arith, All, sym, ◌∙◌, ap,
}
use twitter_client_server.Prelude.Text.{Text, AreUnique}
use twitter_client_server.Engine.Mentions.{trim, trim_start}
use twitter_client_server.Stomp.{
  Command, Frame, command_text, empty_frame, validated, missing_header, mandatory_headers,
  print_headers, print_body, newline,
}
use twitter_client_server.Stomp.Parse.{
  lines_from, keep_line, drop_empty_end, lines, is_empty, is_request, parse_headers, skip_blank,
  parse_request, parse_lines, parse,
}
use twitter_client_server.Stomp.Lines.{
  IsPlain, lines_from-newline, line-lines_from, command_text-Lacks, command_text_some,
  command_text_shows, value_of-command_text,
}
use twitter_client_server.Stomp.Headers.{
  header_lines, headers-lines_from, drop_empty_end_keep, headers-drop_empty_end,
  parse_headers-header_lines, add_all_lem, framed, read_body, parse_body,
}

-- The lines of a command and of headers, with more text behind them.
abbrev pub frame_text : Frame → Text → Text
frame_text f t = command_text f.command ++ (newline ++ (print_headers f.headers ++ t))

-- The text of a frame before its delimiter.
abbrev pub print_text : Frame → Text
print_text f = frame_text f (print_body f.body)

lines-frame_text :
    (f : Frame) (t : Text)
    → All IsPlain f.headers
    → lines (frame_text f t)
      ≡ command_text f.command ∷ (header_lines f.headers ++ drop_empty_end (lines_from [] t))
unfolding lines
lines-frame_text f t all =
    ap drop_empty_end (
      line-lines_from (command_text f.command) _ (command_text-Lacks f.command)
      ∙ ap (λ ls. command_text f.command ∷ ls) (headers-lines_from f.headers t all))
    ∙ drop_empty_end_keep (command_text f.command) (header_lines f.headers ++ lines_from [] t)
        (command_text_some f.command)
    ∙ ap (λ ls. command_text f.command ∷ ls)
        (headers-drop_empty_end f.headers (lines_from [] t) all)

-- A text behind the headers that the parser reads as the body `b`.
unfoldable pub Reads : Text → Text → Type 0
Reads t b = (f : Frame) → parse_headers (drop_empty_end (lines_from [] t)) f ≡ record f { body = b }

missing_header-body :
    (ks : List Text) (f : Frame) (b : Text)
    → missing_header ks (record f { body = b }) ≡ missing_header ks f
unfolding missing_header
missing_header-body [] f b = refl
missing_header-body (k ∷ ks) f b = ground (arith, missing_header-body ks f b)

validated_lem :
    (f : Frame) (b : Text)
    → missing_header (mandatory_headers f.command) f ≡ none
    → validated (record f { body = b }) ≡ record f { body = b }
unfolding validated
validated_lem f b h = ground (arith, missing_header-body (mandatory_headers f.command) f b, h)

parse_request_lem :
    (f : Frame) (t b : Text)
    → is_request f.command ≡ true
    → missing_header (mandatory_headers f.command) f ≡ none
    → All IsPlain f.headers
    → AreUnique f.headers
    → Reads t b
    → parse_request f.command (header_lines f.headers ++ drop_empty_end (lines_from [] t))
      ≡ record f { body = b }
unfolding parse_request Reads
parse_request_lem f t b request whole all unique reads = rw (request) (
    ap validated (
      parse_headers-header_lines f.headers _ (empty_frame f.command) all
      ∙ ap (parse_headers (drop_empty_end (lines_from [] t)))
          (add_all_lem f.headers [] f.command [] unique)
      ∙ reads (framed f.command [] f.headers))
    ∙ validated_lem f b whole)

parse_lines_lem :
    (c : Command) (rest : List Text)
    → parse_lines (command_text c ∷ rest) ≡ some (parse_request c rest)
unfolding parse_lines
parse_lines_lem c rest = ground (arith, value_of-command_text c)

skip_blank_lem :
    (c : Command) (rest : List Text) → skip_blank (command_text c ∷ rest) ≡ command_text c ∷ rest
unfolding skip_blank
skip_blank_lem c rest =
    rw (ap (λ s. is_empty (trim s)) (sym (append-nil (command_text c))) ∙ command_text_shows c [])
      refl

-- What a line break before the text of a frame changes for the parser: nothing.
skip_blank_line :
    (c : Command) (rest : List Text)
    → skip_blank (keep_line [] (command_text c ∷ rest)) ≡ command_text c ∷ rest
unfolding keep_line
skip_blank_line c rest = unfold skip_blank trim trim_start in skip_blank_lem c rest

newline-lines : (t : Text) → lines (newline ++ t) ≡ keep_line [] (lines t)
unfolding lines drop_empty_end
newline-lines t = ap drop_empty_end (lines_from-newline [] t)

newline_shows : (t : Text) → is_empty (trim t) ≡ false → is_empty (trim (newline ++ t)) ≡ false
unfolding trim trim_start
newline_shows t h = h

parse_shown :
    (s : Text) (c : Command) (rest : List Text)
    → is_empty (trim s) ≡ false
    → skip_blank (lines s) ≡ command_text c ∷ rest
    → parse s ≡ some (parse_request c rest)
unfolding parse
parse_shown s c rest shown e = rw shown (ap parse_lines e ∙ parse_lines_lem c rest)

-- The text of a request is read as the request, with or without an empty line before it.
pub parse-frame_text :
    (f : Frame) (t b : Text)
    → is_request f.command ≡ true
    → missing_header (mandatory_headers f.command) f ≡ none
    → All IsPlain f.headers
    → AreUnique f.headers
    → Reads t b
    → (parse (frame_text f t) ≡ some (record f { body = b }))
      × (parse (newline ++ frame_text f t) ≡ some (record f { body = b }))
parse-frame_text f t b request whole all unique reads =
    let shows = command_text_shows f.command (newline ++ (print_headers f.headers ++ t)) in
    let same = parse_request_lem f t b request whole all unique reads in
    (
      parse_shown (frame_text f t) f.command _ shows
            (ap skip_blank (lines-frame_text f t all) ∙ skip_blank_lem f.command _)
          ∙ ap some same,
      parse_shown (newline ++ frame_text f t) f.command _ (newline_shows (frame_text f t) shows) (
            ap skip_blank
              (newline-lines (frame_text f t) ∙ ap (keep_line []) (lines-frame_text f t all))
            ∙ skip_blank_line f.command _)
          ∙ ap some same,
    )

-- The server's own print of a request is read as the request, its body line by line.
pub parse-print_text :
    (f : Frame)
    → is_request f.command ≡ true
    → missing_header (mandatory_headers f.command) f ≡ none
    → All IsPlain f.headers
    → AreUnique f.headers
    → parse (print_text f) ≡ some (record f { body = read_body f.body })
unfolding Reads
parse-print_text f request whole all unique =
    (parse-frame_text f (print_body f.body) (read_body f.body) request whole all unique
      (parse_body f.body)).0
