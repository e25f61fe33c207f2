-- ===== src/Contact/Examples.antt =====
-- The form of twitterClient/twitterClient/assets/js/contact.js at concrete inputs.
use twitter_client_server.Prelude.{◌≡◌, ◌↔◌, refl, true, false, [], ◌∷◌, arith}
use twitter_client_server.Prelude.Text.{codes}
use twitter_client_server.Contact.{
  Form, Page, click_send, click_close, match_domain, match_local, check_email, send_message,
  on_close, ready, step, run,
}
use twitter_client_server.Contact.Email.{IsAddress, dotted, check_email-IsAddress}
use twitter_client_server.Contact.Pattern.{check_email_iff}
use twitter_client_server.Contact.Requests.{Sends, send_message-Sends}

abbrev filled : Form
filled = record {
  fname = codes "Ann";
  lname = codes "Lee";
  email = codes "ann.lee@post.example.com";
  subject = codes "Hi";
  message = codes "Hello";
}

abbrev without_address : Form
without_address = record filled { email = codes "ann.lee@post" }

abbrev pressed : Page
pressed = run (click_send without_address ∷ click_close ∷ click_send filled ∷ []) ready

check_email_of_one_label : check_email (codes "ann.lee@post") ≡ false
unfolding check_email match_local match_domain
check_email_of_one_label = refl

pressed_sends_one : pressed.requests ≡ filled ∷ []
unfolding run step send_message on_close check_email match_local match_domain
pressed_sends_one = refl

filled-IsAddress : IsAddress filled.email
unfolding dotted
filled-IsAddress = record {
  local = codes "ann.lee";
  labels = codes "post" ∷ codes "example" ∷ [];
  last = codes "com";
  spelled = refl;
  some_local = refl;
  local_chars = ground arith;
  some_label = λ e. ground (arith, e);
  label_chars = ground arith;
  last_chars = ground arith;
  last_bounds = ground arith;
}

check_email_iff_example : (check_email filled.email ≡ true) ↔ IsAddress filled.email
check_email_iff_example = check_email_iff filled.email

filled_passes : check_email filled.email ≡ true
filled_passes = check_email-IsAddress filled.email filled-IsAddress

send_message-Sends_example : Sends filled ready (send_message filled ready)
send_message-Sends_example = send_message-Sends filled ready
