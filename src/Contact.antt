-- ===== src/Contact.antt =====
-- The contact form: twitterClient/twitterClient/assets/js/contact.js. What is serialized for the
-- request is the form itself, and the answer of contact.php an event.
pub mod Email
pub mod Pattern
pub mod Requests
pub mod Examples
use twitter_client_server.Prelude.{
  ℕ, ◌≤◌, Bool, true, false, not, ◌&&◌, ◌||◌, Option, none, some, List, [], ◌∷◌, ◌++◌, leb, ◌==◌,
  if◌then◌else◌, length,
}
use twitter_client_server.Prelude.Text.{Text, codes}

pub record Form : Type 0 where
  pub fname : Text
  pub lname : Text
  pub email : Text
  pub subject : Text
  pub message : Text

pub data Style : Type 0 where
  alert_error : Style
  alert_success : Style

-- `div#output`
pub record Page : Type 0 where
  pub shown : Bool
  pub style : Option Style
  pub html : Text
  pub requests : List Form

-- The fields of the answer of contact.php.
pub record Answer : Type 0 where
  pub success : ℕ
  pub name_msg : Text
  pub email_msg : Text
  pub message_msg : Text
  pub subject_msg : Text

abbrev pub is_empty : Text → Bool
is_empty [] = true
is_empty (c ∷ s) = false

abbrev is_digit : ℕ → Bool
is_digit c = leb b'0' c && leb c b'9'

abbrev is_letter : ℕ → Bool
is_letter c = leb b'a' c && leb c b'z' || leb b'A' c && leb c b'Z'

-- `[\w\.\+-]`
abbrev pub is_local_char : ℕ → Bool
is_local_char c = is_letter c || is_digit c || c == b'_' || c == b'.' || c == b'+' || c == b'-'

-- `[\da-zA-Z-]`
abbrev pub is_domain_char : ℕ → Bool
is_domain_char c = is_letter c || is_digit c || c == b'-'

-- The domain behind the @: `label` is the label that is read, `dots` tells whether one ended.
unfoldable pub match_domain : Bool → Text → Text → Bool
match_domain dots label [] = dots && leb 2 (length label) && leb (length label) 6
match_domain dots label (c ∷ s) =
    let next = match_domain true [] s in
    let on = match_domain dots (label ++ c ∷ []) s in
    if c == b'.' then not (is_empty label) && next else is_domain_char c && on

unfoldable pub match_local : Bool → Text → Bool
unfolding match_domain
match_local some_read [] = false
match_local some_read (c ∷ s) =
    let on = match_local true s in
    if c == b'@' then some_read && match_domain false [] s else is_local_char c && on

-- `checkEmail`, the run of its pattern over the text
unfoldable pub check_email : Text → Bool
unfolding match_local
check_email email = match_local false email

abbrev close_button : Text
close_button =
    codes
      "<div class=\"alert-content\"><button type=\"button\" class=\"close\" data-dismiss=\"alert-content\">x</button>"

-- `removeClass(…).addClass(…).show().html(…)`
abbrev pub show_output : Style → Text → Text → Page → Page
show_output style text more p = record p {
  shown = true;
  style = some style;
  html = close_button ++ (text ++ (codes "</div>" ++ more));
}

-- `sendMessage`
unfoldable pub send_message : Form → Page → Page
unfolding check_email
send_message f p =
    if is_empty f.fname
      || is_empty f.lname
      || is_empty f.email
      || is_empty f.subject
      || is_empty f.message
    then show_output alert_error (codes "You must enter all the fields!") [] p
    else if not (check_email f.email)
    then show_output alert_error (codes "Please enter a valid Email Address") [] p
    else record p { requests = f ∷ p.requests }

abbrev item : Text → Text → Text
item before text = if is_empty text then [] else before ++ (text ++ codes "</li>")

unfoldable pub on_success : Answer → Page → Page
on_success a p =
    if a.success == 0
    then show_output alert_error (codes "Could not complete your request. See the errors below!")
        (codes "<ul><li>"
          ++ (item [] a.name_msg
              ++ (item (codes "<li>") a.email_msg
                  ++ (item (codes "<li>") a.message_msg ++ item (codes "<li>") a.subject_msg))))
        p
    else if a.success == 1
    then show_output alert_success (codes "You message has been sent successfully!") [] p
    else p

unfoldable pub on_error : Text → Page → Page
on_error error p =
    show_output alert_error (codes "Could not complete your request. See the error below!") error p

-- The button in the box hides it.
unfoldable pub on_close : Page → Page
on_close p = record p { shown = false }

-- `ready`
abbrev pub ready : Page
ready = record { shown = false; style = none; html = []; requests = [] }

pub data Event : Type 0 where
  click_send : Form → Event
  answered : Answer → Event
  request_failed : Text → Event
  click_close : Event

unfoldable pub step : Event → Page → Page
unfolding send_message on_success on_error on_close
step (click_send f) p = send_message f p
step (answered a) p = on_success a p
step (request_failed error) p = on_error error p
step click_close p = on_close p

unfoldable pub run : List Event → Page → Page
unfolding step
run [] p = p
run (e ∷ es) p = run es (step e p)
