-- ===== src/Contact/Requests.antt =====
-- What `sendMessage` of twitterClient/twitterClient/assets/js/contact.js lets through to the server.
use twitter_client_server.Prelude.{
  ◌≡◌, Bool, true, false, ◌||◌, some, List, [], ◌∷◌, arith, true_ne_false, All, Bool-cases, inl,
  inr, subst, sym, ◌∙◌,
}
use twitter_client_server.Contact.{
  Form, Page, Answer, alert_error, is_empty, check_email, send_message, on_success, on_error,
  on_close, ready, Event, click_send, answered, request_failed, click_close, step, run,
}

-- A form that the page may send: every field is filled and the address passes `checkEmail`.
pub record IsValid (f : Form) : Type 0 where
  pub has_fname : is_empty f.fname ≡ false
  pub has_lname : is_empty f.lname ≡ false
  pub has_email : is_empty f.email ≡ false
  pub has_subject : is_empty f.subject ≡ false
  pub has_message : is_empty f.message ≡ false
  pub has_address : check_email f.email ≡ true

abbrev pub AllValid : Page → Type 0
AllValid p = All IsValid p.requests

-- What a press of the button does: it sends the form and leaves the box alone, or it sends nothing
-- and the box shows an error.
pub data Sends (f : Form) (p q : Page) : Type 0 where
  sent : IsValid f → q ≡ (record p { requests = f ∷ p.requests }) → Sends f p q
  refused :
      ¬ IsValid f
      → q.requests ≡ p.requests
      → q.shown ≡ true
      → q.style ≡ some alert_error
      → Sends f p q

abbrev has_gap : Form → Bool
has_gap f =
    is_empty f.fname
    || is_empty f.lname
    || is_empty f.email
    || is_empty f.subject
    || is_empty f.message

IsValid-has_gap : (f : Form) → IsValid f → has_gap f ≡ false
IsValid-has_gap f v =
    ground (arith, v.has_fname, v.has_lname, v.has_email, v.has_subject, v.has_message)

has_gap-IsValid : (f : Form) → has_gap f ≡ false → check_email f.email ≡ true → IsValid f
has_gap-IsValid f e ok = record {
  has_fname = ground arith;
  has_lname = ground arith;
  has_email = ground arith;
  has_subject = ground arith;
  has_message = ground arith;
  has_address = ok;
}

-- A press of the button sends a valid form, and only that; for any other form nothing is sent and
-- the box shows an error.
pub send_message-Sends : (f : Form) (p : Page) → Sends f p (send_message f p)
unfolding send_message
send_message-Sends f p = elim (Bool-cases (has_gap f)) [
  | inl e ↦
      refused (λ v. true_ne_false (sym e ∙ IsValid-has_gap f v)) (ground (arith, e))
        (ground (arith, e)) (ground (arith, e))
  | inr e ↦ elim (Bool-cases (check_email f.email)) [
    | inl ok ↦ sent (has_gap-IsValid f e ok) (ground (arith, e, ok))
    | inr bad ↦
        refused (λ v. true_ne_false (sym v.has_address ∙ bad)) (ground (arith, e, bad))
          (ground (arith, e, bad)) (ground (arith, e, bad))
  ]
]

send_message-AllValid : (f : Form) (p : Page) → AllValid p → AllValid (send_message f p)
send_message-AllValid f p h = elim (send_message-Sends f p) [
  | sent v e ↦ subst AllValid (sym e) (v, h)
  | refused _ e _ _ ↦ subst (All IsValid) (sym e) h
]

on_success-AllValid : (a : Answer) (p : Page) → AllValid p → AllValid (on_success a p)
unfolding on_success
on_success-AllValid a p h = ground arith

step-AllValid : (e : Event) (p : Page) → AllValid p → AllValid (step e p)
unfolding step
step-AllValid (click_send f) p h = send_message-AllValid f p h
step-AllValid (answered a) p h = on_success-AllValid a p h
step-AllValid (request_failed error) p h = unfold on_error in h
step-AllValid click_close p h = unfold on_close in h

run_from-AllValid : (es : List Event) (p : Page) → AllValid p → AllValid (run es p)
unfolding run
run_from-AllValid [] p h = h
run_from-AllValid (e ∷ es) p h = run_from-AllValid es (step e p) (step-AllValid e p h)

-- Whatever the visitor and the server do, every form that the page sends has all its fields filled
-- and an address that `checkEmail` takes.
pub run-ready-AllValid : (es : List Event) → AllValid (run es ready)
run-ready-AllValid es = run_from-AllValid es ready tt
