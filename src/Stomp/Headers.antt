-- ===== src/Stomp/Headers.antt =====
-- The header lines and the body of a printed frame under `parse`, in
-- twitterEngine/src/spl/stomp/protocol/StompFrame.java.
use mathlib.Core.List.{append_assoc, append-nil}
use twitter_client_server.Prelude.{
  ◌≡◌, ◌≢◌, refl, false, none, some, List, [], ◌∷◌, ◌++◌, ◌==◌, arith, All, sym, ◌∙◌, ap, subst,
  Bool-cases, inl, inr,
}
use twitter_client_server.Prelude.Text.{Text, eq_text_iff, lookup, insert, AreUnique}
use twitter_client_server.Engine.Mentions.{trim, trim_start}
use twitter_client_server.Stomp.{
  Command, Frame, add_frame_header, print_headers, print_body, newline,
}
use twitter_client_server.Stomp.Parse.{
  lines_from, keep_line, drop_empty_end, lines, is_empty, cut_at_colon, put_header, join_body,
  parse_headers,
}
use twitter_client_server.Stomp.Lines.{
  Lacks, header_line, IsPlain, lines_from-newline, line-lines_from,
}

pub header_lines : List (Text × Text) → List Text
header_lines [] = []
header_lines (h ∷ hs) = header_line h ∷ header_lines hs

pub headers-lines_from :
    (hs : List (Text × Text)) (t : Text)
    → All IsPlain hs
    → lines_from [] (print_headers hs ++ t) ≡ header_lines hs ++ lines_from [] t
unfolding print_headers header_lines
headers-lines_from [] t all = refl
headers-lines_from ((k, v) ∷ hs) t all =
    ap (lines_from []) (simp append_assoc)
    ∙ line-lines_from (header_line (k, v)) (print_headers hs ++ t) (all.0).one_line
    ∙ ap (λ ls. header_line (k, v) ∷ ls) (headers-lines_from hs t all.1)

pub is_empty-header_line : (h : Text × Text) → IsPlain h → is_empty (header_line h) ≡ false
is_empty-header_line ([], v) p = refl
is_empty-header_line (c ∷ k, v) p = refl

pub drop_empty_end_keep :
    (l : Text) (ls : List Text)
    → is_empty l ≡ false
    → drop_empty_end (l ∷ ls) ≡ l ∷ drop_empty_end ls
unfolding drop_empty_end keep_line
drop_empty_end_keep [] ls h = absurd (cc)
drop_empty_end_keep (c ∷ l) ls h = refl

pub headers-drop_empty_end :
    (hs : List (Text × Text)) (ls : List Text)
    → All IsPlain hs
    → drop_empty_end (header_lines hs ++ ls) ≡ header_lines hs ++ drop_empty_end ls
unfolding header_lines
headers-drop_empty_end [] ls all = refl
headers-drop_empty_end (h ∷ hs) ls all =
    drop_empty_end_keep (header_line h) (header_lines hs ++ ls) (is_empty-header_line h all.0)
    ∙ ap (λ x. header_line h ∷ x) (headers-drop_empty_end hs ls all.1)

pub cut_at_colon-header_line :
    (k v : Text) → Lacks b':' k → cut_at_colon (header_line (k, v)) ≡ some (k, v)
unfolding cut_at_colon
cut_at_colon-header_line [] v h = refl
cut_at_colon-header_line (c ∷ k) v h = ground (arith, h.0, cut_at_colon-header_line k v h.1)

pub put_header-header_line :
    (k v : Text) (f : Frame)
    → IsPlain (k, v)
    → put_header (trim (header_line (k, v))) f ≡ add_frame_header k v f
unfolding put_header
put_header-header_line k v f p =
    rw (p.tight) (ground (arith, cut_at_colon-header_line k v p.no_colon, p.key))

pub add_all : List (Text × Text) → Frame → Frame
add_all [] f = f
add_all ((k, v) ∷ hs) f = add_all hs (add_frame_header k v f)

pub parse_headers-header_lines :
    (hs : List (Text × Text)) (ls : List Text) (f : Frame)
    → All IsPlain hs
    → parse_headers (header_lines hs ++ ls) f ≡ parse_headers ls (add_all hs f)
unfolding parse_headers header_lines add_all
parse_headers-header_lines [] ls f all = refl
parse_headers-header_lines ((k, v) ∷ hs) ls f all = ground (
  arith,
  (all.0).tight,
  is_empty-header_line (k, v) all.0,
  put_header-header_line k v f all.0,
  parse_headers-header_lines hs ls (add_frame_header k v f) all.1,
)

pub lookup_of_AreUnique :
    (k v : Text) (before hs : List (Text × Text))
    → AreUnique (before ++ (k, v) ∷ hs)
    → lookup k before ≡ none
unfolding lookup
lookup_of_AreUnique k v [] hs h = refl
lookup_of_AreUnique k v ((j, w) ∷ before) hs h = ground (
  arith,
  eq_text_iff j k,
  lookup_middle k v before hs,
  lookup_of_AreUnique k v before hs h.1,
  h.0,
)
  where
    lookup_middle :
        (k v : Text) (before hs : List (Text × Text)) → lookup k (before ++ (k, v) ∷ hs) ≢ none
    lookup_middle k v [] hs e = ground (arith, eq_text_iff k k)
    lookup_middle k v ((j, w) ∷ before) hs e = ground (arith, lookup_middle k v before hs)

pub insert_new :
    (k v : Text) (m : List (Text × Text)) → lookup k m ≡ none → insert k v m ≡ m ++ (k, v) ∷ []
unfolding lookup insert
insert_new k v [] h = refl
insert_new k v ((j, w) ∷ m) h = ground (arith, insert_new k v m)

abbrev pub framed : Command → Text → List (Text × Text) → Frame
framed c b hs = record { command = c; headers = hs; body = b }

pub add_all_lem :
    (hs before : List (Text × Text)) (c : Command) (b : Text)
    → AreUnique (before ++ hs)
    → add_all hs (framed c b before) ≡ framed c b (before ++ hs)
unfolding add_all add_frame_header
add_all_lem [] before c b h = ap (framed c b) (sym (append-nil before))
add_all_lem ((k, v) ∷ hs) before c b h =
    ap (λ m. add_all hs (framed c b m))
      (insert_new k v before (lookup_of_AreUnique k v before hs h))
    ∙ add_all_lem hs (before ++ (k, v) ∷ []) c b
        (subst AreUnique (sym (append_assoc before ((k, v) ∷ []) hs)) h)
    ∙ ap (framed c b) (append_assoc before ((k, v) ∷ []) hs)

-- A newline at the end of a body adds one empty line, and the split drops it.
pub lines_from_last :
    (s current : Text) → lines_from current (s ++ newline) ≡ lines_from current s ++ [] ∷ []
unfolding lines_from
lines_from_last [] current = refl
lines_from_last (c ∷ s) current = elim (Bool-cases (c == b'\n')) [
  | inl y ↦ rw (y, lines_from) (ap (λ ls. current ∷ ls) (lines_from_last s []))
  | inr n ↦ rw (n, lines_from) (lines_from_last s (current ++ c ∷ []))
]

pub drop_empty_end_last : (ls : List Text) → drop_empty_end (ls ++ [] ∷ []) ≡ drop_empty_end ls
unfolding drop_empty_end keep_line
drop_empty_end_last [] = refl
drop_empty_end_last (l ∷ ls) = rw (drop_empty_end_last ls) refl

-- What the body of a frame becomes.
unfoldable pub read_body : Text → Text
unfolding lines
read_body b = join_body (lines b)

pub parse_no_body :
    (f : Frame)
    → parse_headers (drop_empty_end (lines_from [] [])) f ≡ record f { body = read_body [] }
unfolding read_body lines lines_from drop_empty_end keep_line parse_headers join_body
parse_no_body f = refl

pub parse_kept :
    (ls : List Text) (f : Frame)
    → parse_headers (keep_line [] ls) f ≡ record f { body = join_body ls }
unfolding keep_line parse_headers join_body trim trim_start
parse_kept [] f = refl
parse_kept (l ∷ ls) f = refl

pub parse_body :
    (b : Text) (f : Frame)
    → parse_headers (drop_empty_end (lines_from [] (print_body b))) f
      ≡ record f { body = read_body b }
unfolding print_body read_body lines drop_empty_end
parse_body [] f = parse_no_body f
parse_body (c ∷ s) f =
    ap (λ ls. parse_headers (drop_empty_end ls) f)
      (lines_from-newline [] ((c ∷ s) ++ newline) ∙ ap (λ ls. [] ∷ ls) (lines_from_last (c ∷ s) []))
    ∙ ap (λ ls. parse_headers (keep_line [] ls) f) (drop_empty_end_last (lines_from [] (c ∷ s)))
    ∙ parse_kept (drop_empty_end (lines_from [] (c ∷ s))) f
