-- ===== src/Stomp/Lines.antt =====
-- Lines of a printed frame under the split of `parse`, in
-- twitterEngine/src/spl/stomp/protocol/StompFrame.java, and the command on the first of them.
use mathlib.Core.List.{append_assoc, append-nil, reverse, reverse-cons}
use twitter_client_server.Prelude.{
  ℕ, ◌≡◌, ◌≢◌, refl, false, some, [], ◌∷◌, ◌++◌, ◌==◌, arith, All, leb, ◌∙◌, ap,
}
use twitter_client_server.Prelude.Text.{Text, codes, eq_text}
use twitter_client_server.Engine.Mentions.{trim, trim_start}
use twitter_client_server.Stomp.{
  Command, send, subscribe, unsubscribe, disconnect, connect, message, connected, receipt, error,
  command_text, newline,
}
use twitter_client_server.Stomp.Parse.{lines_from, is_empty, value_of}

abbrev pub Lacks : ℕ → Text → Type 0
Lacks c = All (λ d. d ≢ c)

pub eqb_false : (d c : ℕ) → d ≢ c → (d == c) ≡ false
eqb_false d c h = ground arith

abbrev pub header_line : Text × Text → Text
header_line (k, v) = k ++ (codes ":" ++ v)

-- A header that a line can carry.
pub record IsPlain (h : Text × Text) : Type 0 where
  pub key : is_empty h.0 ≡ false
  pub no_colon : Lacks b':' h.0
  pub one_line : Lacks b'\n' (header_line h)
  pub tight : trim (header_line h) ≡ header_line h

pub lines_from-append :
    (p s current : Text) → Lacks b'\n' p → lines_from current (p ++ s) ≡ lines_from (current ++ p) s
unfolding lines_from
lines_from-append [] s current h = rw append-nil refl
lines_from-append (c ∷ p) s current h =
    rw (eqb_false c b'\n' h.0, lines_from)
      (lines_from-append p s (current ++ c ∷ []) h.1
        ∙ ap (λ x. lines_from x s) (append_assoc current (c ∷ []) p))

pub lines_from-newline :
    (current s : Text) → lines_from current (newline ++ s) ≡ current ∷ lines_from [] s
unfolding lines_from
lines_from-newline current s = refl

pub line-lines_from :
    (p s : Text) → Lacks b'\n' p → lines_from [] (p ++ (newline ++ s)) ≡ p ∷ lines_from [] s
line-lines_from p s h = lines_from-append p (newline ++ s) [] h ∙ lines_from-newline p s

-- A text that starts above the space is not blank.
pub trim_start-ne-nil : (s : Text) (c : ℕ) → leb c b' ' ≡ false → trim_start (s ++ c ∷ []) ≢ []
unfolding trim_start
trim_start-ne-nil [] c h = rw (h) (λ e. cc)
trim_start-ne-nil (d ∷ s) c h = ground (arith, trim_start-ne-nil s c h)

pub is_empty-snoc : (s : Text) (c : ℕ) → is_empty (s ++ c ∷ []) ≡ false
is_empty-snoc [] c = refl
is_empty-snoc (d ∷ s) c = refl

pub is_empty-reverse : (s : Text) → s ≢ [] → is_empty (reverse s) ≡ false
is_empty-reverse [] h = absurd (h refl)
is_empty-reverse (c ∷ s) h = rw (reverse-cons c s) (is_empty-snoc (reverse s) c)

pub is_empty-trim : (c : ℕ) (s : Text) → leb c b' ' ≡ false → is_empty (trim (c ∷ s)) ≡ false
unfolding trim
is_empty-trim c s h = rw (trim_start_keep c s h) (
    is_empty-reverse (trim_start (reverse (c ∷ s)))
      (rw (reverse-cons c s) (trim_start-ne-nil (reverse s) c h)))
  where
    trim_start_keep : (c : ℕ) (s : Text) → leb c b' ' ≡ false → trim_start (c ∷ s) ≡ c ∷ s
    trim_start_keep c s h = unfold trim_start in rw (h) refl

pub value_of-command_text : (c : Command) → value_of (command_text c) ≡ some c
unfolding value_of eq_text trim trim_start
value_of-command_text send = refl
value_of-command_text subscribe = refl
value_of-command_text unsubscribe = refl
value_of-command_text disconnect = refl
value_of-command_text connect = refl
value_of-command_text message = refl
value_of-command_text connected = refl
value_of-command_text receipt = refl
value_of-command_text error = refl

pub command_text-Lacks : (c : Command) → Lacks b'\n' (command_text c)
command_text-Lacks send = omega arith
command_text-Lacks subscribe = omega arith
command_text-Lacks unsubscribe = omega arith
command_text-Lacks disconnect = omega arith
command_text-Lacks connect = omega arith
command_text-Lacks message = omega arith
command_text-Lacks connected = omega arith
command_text-Lacks receipt = omega arith
command_text-Lacks error = omega arith

-- Every command starts with a letter, also with more text behind it.
pub command_text_some : (c : Command) → is_empty (command_text c) ≡ false
command_text_some send = refl
command_text_some subscribe = refl
command_text_some unsubscribe = refl
command_text_some disconnect = refl
command_text_some connect = refl
command_text_some message = refl
command_text_some connected = refl
command_text_some receipt = refl
command_text_some error = refl

pub command_text_shows : (c : Command) (s : Text) → is_empty (trim (command_text c ++ s)) ≡ false
command_text_shows send s = is_empty-trim b'S' (codes "END" ++ s) refl
command_text_shows subscribe s = is_empty-trim b'S' (codes "UBSCRIBE" ++ s) refl
command_text_shows unsubscribe s = is_empty-trim b'U' (codes "NSUBSCRIBE" ++ s) refl
command_text_shows disconnect s = is_empty-trim b'D' (codes "ISCONNECT" ++ s) refl
command_text_shows connect s = is_empty-trim b'C' (codes "ONNECT" ++ s) refl
command_text_shows message s = is_empty-trim b'M' (codes "ESSAGE" ++ s) refl
command_text_shows connected s = is_empty-trim b'C' (codes "ONNECTED" ++ s) refl
command_text_shows receipt s = is_empty-trim b'R' (codes "ECEIPT" ++ s) refl
command_text_shows error s = is_empty-trim b'E' (codes "RROR" ++ s) refl
