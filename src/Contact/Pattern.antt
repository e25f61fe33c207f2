-- ===== src/Contact/Pattern.antt =====
-- The other way round for `checkEmail` of twitterClient/twitterClient/assets/js/contact.js: the
-- parts of a text that its pattern takes.
use mathlib.Core.List.{append_assoc, append-nil}
use twitter_client_server.Prelude.{
  ℕ, ◌≤◌, ◌≡◌, ◌≢◌, ◌↔◌, refl, Bool, true, false, List, [], ◌∷◌, ◌++◌, arith, length, All, sym, ◌∙◌,
  ap, subst, ◌==◌, ==_iff, true_ne_false, inl, inr, ◌⊎◌, Bool-cases,
}
use twitter_client_server.Prelude.Text.{Text, codes}
use twitter_client_server.Contact.{
  is_empty, is_local_char, is_domain_char, match_domain, match_local, check_email,
}
use twitter_client_server.Contact.Email.{
  IsDomainText, AreLabels, dotted, IsAddress, check_email-IsAddress,
}

cons_ne_nil : {l : Text} → {ls : List Text} → (l ∷ ls) ≢ []
cons_ne_nil e = ground (arith, e)

left_of : {A : Type 0} → A ⊎ (false ≡ true) → A
left_of (inl a) = a
left_of (inr e) = absurd (true_ne_false (sym e))

-- What `match_domain dots read` has seen when it takes a text: with the label that is read, labels
-- and an end.
record IsDomain (dots : Bool) (s : Text) : Type 0 where
  labels : List Text
  last : Text
  spelled : s ≡ dotted labels last
  some_label : (labels ≢ []) ⊎ (dots ≡ true)
  label_chars : AreLabels labels
  last_chars : IsDomainText last
  last_bounds : (2 ≤ length last) × (length last ≤ 6)

snoc-IsDomainText :
    (l : Text) (c : ℕ) → IsDomainText l → is_domain_char c ≡ true → IsDomainText (l ++ c ∷ [])
snoc-IsDomainText [] c h hc = (hc, tt)
snoc-IsDomainText (d ∷ l) c h hc = (h.0, snoc-IsDomainText l c h.1 hc)

end-IsDomain :
    (dots : Bool) (read : Text)
    → IsDomainText read
    → match_domain dots read [] ≡ true
    → IsDomain dots (read ++ [])
unfolding match_domain dotted
end-IsDomain dots read h e = record {
  labels = [];
  last = read;
  spelled = append-nil read;
  some_label = inr (ground (arith, e));
  label_chars = tt;
  last_chars = h;
  last_bounds = (ground (arith, e), ground (arith, e));
}

longer-IsDomain :
    (l s : Text) (c : ℕ) (dots : Bool)
    → c ≡ b'.'
    → is_empty l ≡ false
    → IsDomainText l
    → IsDomain true s
    → IsDomain dots (l ++ c ∷ s)
unfolding dotted
longer-IsDomain l s c dots is_dot some_char h d = record {
  labels = l ∷ d.labels;
  last = d.last;
  spelled = ap (λ x. l ++ x ∷ s) is_dot ∙ ap (λ x. l ++ b'.' ∷ x) d.spelled;
  some_label = inl (λ e. cons_ne_nil e);
  label_chars = ((some_char, h), d.label_chars);
  last_chars = d.last_chars;
  last_bounds = d.last_bounds;
}

match_domain-IsDomain :
    (s read : Text) (dots : Bool)
    → IsDomainText read
    → match_domain dots read s ≡ true
    → IsDomain dots (read ++ s)
unfolding match_domain
match_domain-IsDomain [] read dots h e = end-IsDomain dots read h e
match_domain-IsDomain (c ∷ s) read dots h e = elim (Bool-cases (c == b'.')) [
  | inl is_dot ↦
      longer-IsDomain read s c dots ((==_iff c b'.').0 is_dot) (ground (arith, e, is_dot)) h
        (match_domain-IsDomain s [] true tt (ground (arith, e, is_dot)))
  | inr other ↦ subst (IsDomain dots) (append_assoc read (c ∷ []) s) (
      match_domain-IsDomain s (read ++ c ∷ []) dots
        (snoc-IsDomainText read c h (ground (arith, e, other))) (ground (arith, e, other)))
]

record IsMatch (some_read : Bool) (s : Text) : Type 0 where
  local : Text
  domain : Text
  spelled : s ≡ local ++ (codes "@" ++ domain)
  some_local : (is_empty local ≡ false) ⊎ (some_read ≡ true)
  local_chars : All (λ c. is_local_char c ≡ true) local
  takes_domain : match_domain false [] domain ≡ true

longer-IsMatch :
    (s : Text) (c : ℕ) (some_read : Bool)
    → is_local_char c ≡ true
    → IsMatch true s
    → IsMatch some_read (c ∷ s)
longer-IsMatch s c some_read h m = record {
  local = c ∷ m.local;
  domain = m.domain;
  spelled = ap (λ x. c ∷ x) m.spelled;
  some_local = inl refl;
  local_chars = (h, m.local_chars);
  takes_domain = m.takes_domain;
}

match_local-IsMatch :
    (s : Text) (some_read : Bool) → match_local some_read s ≡ true → IsMatch some_read s
unfolding match_local
match_local-IsMatch [] some_read e = absurd (true_ne_false (sym e))
match_local-IsMatch (c ∷ s) some_read e = elim (Bool-cases (c == b'@')) [
  | inl is_at ↦ record {
    local = [];
    domain = s;
    spelled = ap (λ x. x ∷ s) ((==_iff c b'@').0 is_at);
    some_local = inr (ground (arith, e, is_at));
    local_chars = tt;
    takes_domain = ground (arith, e, is_at);
  }
  | inr other ↦
      longer-IsMatch s c some_read (ground (arith, e, other))
        (match_local-IsMatch s true (ground (arith, e, other)))
]

IsMatch-IsAddress : (s : Text) → IsMatch false s → IsAddress s
IsMatch-IsAddress s m =
    let d = match_domain-IsDomain m.domain [] false tt m.takes_domain in
    record {
      local = m.local;
      labels = d.labels;
      last = d.last;
      spelled = m.spelled ∙ ap (λ x. m.local ++ (codes "@" ++ x)) d.spelled;
      some_local = left_of m.some_local;
      local_chars = m.local_chars;
      some_label = left_of d.some_label;
      label_chars = d.label_chars;
      last_chars = d.last_chars;
      last_bounds = d.last_bounds;
    }

-- `checkEmail` takes the texts that are made of the parts that its pattern names, and no others:
-- some characters for the local part, the @, one label or more with its dot, and an end of two to
-- six characters.
pub check_email_iff : (s : Text) → (check_email s ≡ true) ↔ IsAddress s
unfolding check_email
check_email_iff s =
    (λ e. IsMatch-IsAddress s (match_local-IsMatch s false e), check_email-IsAddress s)
