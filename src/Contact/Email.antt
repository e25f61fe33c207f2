-- ===== src/Contact/Email.antt =====
-- `checkEmail` of twitterClient/twitterClient/assets/js/contact.js against its pattern, read as the
-- parts that a text is made of.
use mathlib.Core.List.{append_assoc, append-nil}
use twitter_client_server.Prelude.{
  ◌≤◌, ◌≡◌, ◌≢◌, refl, Bool, true, false, List, [], ◌∷◌, ◌++◌, arith, length, All, ◌∙◌, ap, inl,
  inr, ◌⊎◌,
}
use twitter_client_server.Prelude.Text.{Text, codes}
use twitter_client_server.Contact.{
  is_empty, is_local_char, is_domain_char, match_domain, match_local, check_email,
}

abbrev pub IsDomainText : Text → Type 0
IsDomainText = All (λ c. is_domain_char c ≡ true)

-- `([\da-zA-Z-]{1,}\.){1,}[\da-zA-Z-]{2,6}`: the labels, each with its dot, and the last part.
abbrev pub AreLabels : List Text → Type 0
AreLabels = All (λ l. (is_empty l ≡ false) × IsDomainText l)

unfoldable pub dotted : List Text → Text → Text
dotted [] last = last
dotted (l ∷ ls) last = l ++ (codes "." ++ dotted ls last)

pub record IsAddress (s : Text) : Type 0 where
  pub local : Text
  pub labels : List Text
  pub last : Text
  pub spelled : s ≡ local ++ (codes "@" ++ dotted labels last)
  pub some_local : is_empty local ≡ false
  pub local_chars : All (λ c. is_local_char c ≡ true) local
  pub some_label : labels ≢ []
  pub label_chars : AreLabels labels
  pub last_chars : IsDomainText last
  pub last_bounds : (2 ≤ length last) × (length last ≤ 6)

match_domain_last :
    (t read : Text)
    → IsDomainText t
    → 2 ≤ length (read ++ t)
    → length (read ++ t) ≤ 6
    → match_domain true read t ≡ true
unfolding match_domain
match_domain_last [] read h low high = ground (arith, append-nil read, low, high)
match_domain_last (c ∷ t) read h low high =
    ground (
      arith,
      h.0,
      append_assoc read (c ∷ []) t,
      match_domain_last t (read ++ c ∷ []) h.1,
      low,
      high,
    )

match_domain_label :
    (l read rest : Text) (dots : Bool)
    → IsDomainText l
    → is_empty (read ++ l) ≡ false
    → match_domain dots read (l ++ (codes "." ++ rest)) ≡ match_domain true [] rest
unfolding match_domain
match_domain_label [] read rest dots h some_read = ground (arith, append-nil read, some_read)
match_domain_label (c ∷ l) read rest dots h some_read =
    let again = append_assoc read (c ∷ []) l in
    ground (
      arith,
      h.0,
      match_domain_label l (read ++ c ∷ []) rest dots h.1 (ap is_empty again ∙ some_read),
    )

match_domain-dotted :
    (ls : List Text) (last : Text) (dots : Bool)
    → AreLabels ls
    → (ls ≢ []) ⊎ (dots ≡ true)
    → IsDomainText last
    → 2 ≤ length last
    → length last ≤ 6
    → match_domain dots [] (dotted ls last) ≡ true
unfolding dotted
match_domain-dotted [] last dots _ (inl some_label) h low high = absurd (some_label refl)
match_domain-dotted [] last dots _ (inr on) h low high =
    ap (λ b. match_domain b [] last) on ∙ match_domain_last last [] h low high
match_domain-dotted (l ∷ ls) last dots hs _ h low high =
    match_domain_label l [] (dotted ls last) dots hs.0.1 hs.0.0
    ∙ match_domain-dotted ls last true hs.1 (inr refl) h low high

match_local_lem :
    (t rest : Text) (some_read : Bool)
    → All (λ c. is_local_char c ≡ true) t
    → (some_read ≡ true) ⊎ (is_empty t ≡ false)
    → match_local some_read (t ++ (codes "@" ++ rest)) ≡ match_domain false [] rest
unfolding match_local
match_local_lem [] rest some_read _ (inl on) = ground (arith, on)
match_local_lem [] rest some_read _ (inr none_read) = ground (arith, none_read)
match_local_lem (c ∷ t) rest some_read h _ =
    ground (arith, h.0, match_local_lem t rest true h.1 (inl refl))

-- `checkEmail` takes every text that is made of the parts that its pattern names: some characters
-- for the local part, the @, one label or more with its dot, and an end of two to six characters.
pub check_email-IsAddress : (s : Text) → IsAddress s → check_email s ≡ true
unfolding check_email
check_email-IsAddress s a =
    ap check_email a.spelled
    ∙ match_local_lem a.local (dotted a.labels a.last) false a.local_chars (inr a.some_local)
    ∙ match_domain-dotted a.labels a.last false a.label_chars (inl a.some_label) a.last_chars
        a.last_bounds.0 a.last_bounds.1
