-- ===== src/Stomp/Chunks.antt =====
-- The messages that the reactor's tokenizer finds do not depend on how the text is cut into chunks:
-- twitterReactorServer/src/spl/twitter/tokenizer/StompFrameTokenizer.java and reactor/ProtocolTask.java.
use mathlib.Core.List.{append_assoc, append-nil}
use twitter_client_server.Prelude.{
  ℕ, zero, suc, ◌≤◌, ◌<◌, ◌≡◌, refl, true, false, none, some, List, [], ◌∷◌, ◌++◌, ◌==◌, length,
  arith, sym, ◌∙◌, ap, inl, inr, Option-cases, Bool-cases,
}
use twitter_client_server.Prelude.Text.{Text}
use twitter_client_server.Stomp.Tokenizer.{
  Tokenizer, fresh_tokenizer, take_message, add_bytes, absorb, has_message, next_message,
  take_messages, run_task, read_chunks,
}

-- The text cut at its delimiters in one pass: what stands before each, and what is left.
unfoldable pub pieces : Text → Text → List Text × Text
pieces current [] = ([], current)
pieces current (c ∷ s) =
    let cut = pieces [] s in
    let on = pieces (current ++ c ∷ []) s in
    elim (c == 0) [ true ↦ (current ∷ cut.0, cut.1) | false ↦ on ]

pieces-none : (s current : Text) → take_message s ≡ none → pieces current s ≡ ([], current ++ s)
unfolding pieces take_message
pieces-none [] current h = rw append-nil refl
pieces-none (c ∷ s) current h =
    ground (arith, pieces-none s (current ++ c ∷ []), append_assoc current (c ∷ []) s)

pieces-some :
    (s current m rest : Text)
    → take_message s ≡ some (m, rest)
    → pieces current s ≡ ((current ++ m) ∷ (pieces [] rest).0, (pieces [] rest).1)
unfolding pieces take_message
pieces-some [] current m rest h = absurd (cc)
pieces-some (c ∷ s) current m rest h = elim (Option-cases (take_message s)) [
  | inl e ↦ ground (arith, e, h, append-nil current)
  | inr ((n, r), e) ↦ ground (
    arith,
    e,
    h,
    pieces-some s (current ++ c ∷ []) n r e,
    append_assoc current (c ∷ []) n,
    append-nil current,
  )
]

take_message-lt : (s m rest : Text) → take_message s ≡ some (m, rest) → length rest < length s
unfolding take_message
take_message-lt [] m rest h = absurd (cc)
take_message-lt (c ∷ s) m rest h = elim (Option-cases (take_message s)) [
  | inl e ↦ ground (arith, e, h)
  | inr ((n, r), e) ↦ ground (arith, e, h, take_message-lt s n r e)
]

pieces-append :
    (s t current : Text)
    → pieces current (s ++ t) ≡ (
      (pieces current s).0 ++ (pieces ((pieces current s).1) t).0,
      (pieces ((pieces current s).1) t).1,
    )
unfolding pieces
pieces-append [] t current = refl
pieces-append (c ∷ s) t current =
    ground (arith, pieces-append s t [], pieces-append s t (current ++ c ∷ []))

take_message-snoc :
    (s : Text) (c : ℕ)
    → take_message s ≡ none
    → (c == 0) ≡ false
    → take_message (s ++ c ∷ []) ≡ none
unfolding take_message
take_message-snoc [] c h n = ground (arith, n)
take_message-snoc (d ∷ s) c h n = ground (arith, n, take_message-snoc s c)

pieces_start : (l d : Text) → take_message l ≡ none → pieces [] (l ++ d) ≡ pieces l d
pieces_start l d h = pieces-append l d [] ∙ rw (pieces-none l [] h) refl

-- What is left holds no delimiter.
pieces_left :
    (s current : Text) → take_message current ≡ none → take_message ((pieces current s).1) ≡ none
unfolding pieces
pieces_left [] current h = h
pieces_left (c ∷ s) current h = elim (Bool-cases (c == 0)) [
  | inl y ↦ rw (y, pieces) (pieces_left s [] (unfold take_message in refl))
  | inr n ↦ rw (n, pieces) (pieces_left s (current ++ c ∷ []) (take_message-snoc current c h n))
]

abbrev holding : Text → Tokenizer
holding s = record { string_buf = s; buffers = [] }

take_message_empty : (s : Text) → length s ≤ 0 → take_message s ≡ none
unfolding take_message
take_message_empty [] h = refl
take_message_empty (c ∷ s) h = absurd (omega arith)

-- Where a run of the task stops: the messages and what is left.
abbrev ended : Text → List Text × Tokenizer
ended s = ((pieces [] s).0, holding (pieces [] s).1)

ended-none : (s : Text) → take_message s ≡ none → ended s ≡ ([], holding s)
ended-none s h = rw (pieces-none s [] h) refl

module _ (decode : List ℕ → Text) where
  abbrev buffered : Tokenizer → Text
  buffered t = absorb decode t.buffers t.string_buf

  round_none :
      (fuel : ℕ) (t : Tokenizer)
      → take_message (buffered t) ≡ none
      → take_messages decode (suc fuel) t ≡ ([], holding (buffered t))
  unfolding take_messages has_message next_message
  round_none fuel t h = ground (arith, h)

  round_some :
      (fuel : ℕ) (t : Tokenizer) (m rest : Text)
      → take_message (buffered t) ≡ some (m, rest)
      → take_messages decode (suc fuel) t ≡ (
        m ∷ (take_messages decode fuel (holding rest)).0,
        (take_messages decode fuel (holding rest)).1,
      )
  unfolding take_messages has_message next_message
  round_some fuel t m rest h = ground (arith, h)

  -- The rounds of the task cut the buffer as one pass does; the fuel is its length.
  take_messages-pieces :
      (fuel : ℕ) (t : Tokenizer)
      → length (buffered t) ≤ fuel
      → take_messages decode fuel t ≡ ended (buffered t)
  take_messages-pieces zero t h =
      unfold take_messages in
      unfold has_message in sym (ended-none (buffered t) (take_message_empty (buffered t) h))
  take_messages-pieces (suc fuel) t h = elim (Option-cases (take_message (buffered t))) [
    | inl e ↦ round_none fuel t e ∙ sym (ended-none (buffered t) e)
    | inr ((m, rest), e) ↦
        round_some fuel t m rest e
        ∙ ap (λ (r : List Text × Tokenizer). (m ∷ r.0, r.1))
            (take_messages-pieces fuel (holding rest)
                (small rest (take_message-lt (buffered t) m rest e))
              ∙ ap ended (absorbed rest))
        ∙ sym (
            ap (λ (p : List Text × Text). (p.0, holding p.1))
              (pieces-some (buffered t) [] m rest e))
  ]
    where
      absorbed : (r : Text) → buffered (holding r) ≡ r
      absorbed r = unfold absorb in refl

      small : (r : Text) → length r < length (buffered t) → length (buffered (holding r)) ≤ fuel
      small r lt = rw (absorbed r) (omega arith)

  run_task-pieces : (t : Tokenizer) → run_task decode t ≡ ended (buffered t)
  unfolding run_task
  run_task-pieces t = take_messages-pieces (length (buffered t)) t (omega arith)

  -- The text that the chunks decode to.
  abbrev pub decoded : List (List ℕ) → Text
  decoded [] = []
  decoded (b ∷ bs) = decode b ++ decoded bs

  abbrev joined : List Text × Text → Text → List Text × Tokenizer
  joined p t = (p.0 ++ (pieces p.1 t).0, holding (pieces p.1 t).1)

  ended-append : (s t : Text) → ended (s ++ t) ≡ joined (pieces [] s) t
  ended-append s t = ap (λ (p : List Text × Text). (p.0, holding p.1)) (pieces-append s t [])

  read_after :
      (bs : List (List ℕ)) (left : Text)
      → take_message left ≡ none
      → read_chunks decode bs (holding left) ≡ ended (left ++ decoded bs)
  unfolding read_chunks add_bytes
  read_after [] left h = rw (append-nil left) (sym (ended-none left h))
  read_after (b ∷ bs) left h =
      let first = pieces [] (left ++ decode b) in
      ap
        (λ (r : List Text × Tokenizer).
          (r.0 ++ (read_chunks decode bs r.1).0, (read_chunks decode bs r.1).1))
        (run_task-pieces (add_bytes b (holding left)) ∙ ap ended (absorbed b left))
      ∙ ap (λ (r : List Text × Tokenizer). (first.0 ++ r.0, r.1))
          (read_after bs first.1 (pieces_left (left ++ decode b) [] (unfold take_message in refl)))
      ∙ ap (λ (p : List Text × Text). (first.0 ++ p.0, holding p.1))
          (pieces_start first.1 (decoded bs)
            (pieces_left (left ++ decode b) [] (unfold take_message in refl)))
      ∙ sym (ended-append (left ++ decode b) (decoded bs))
      ∙ ap ended (append_assoc left (decode b) (decoded bs))
    where
      absorbed :
          (b : List ℕ) (left : Text) → buffered (add_bytes b (holding left)) ≡ left ++ decode b
      absorbed b left = unfold absorb in refl

  -- Read chunk by chunk, the tokenizer gives the pieces of the whole text, each once and in order, and
  -- keeps what stands behind the last delimiter.
  pub read_chunks-pieces :
      (bs : List (List ℕ))
      → read_chunks decode bs fresh_tokenizer ≡ (
        (pieces [] (decoded bs)).0,
        record { string_buf = (pieces [] (decoded bs)).1; buffers = [] },
      )
  read_chunks-pieces bs = read_after bs [] (unfold take_message in refl)
