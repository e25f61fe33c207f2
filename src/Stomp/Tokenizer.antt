-- ===== src/Stomp/Tokenizer.antt =====
-- The tokenizer of the reactor, twitterReactorServer/src/spl/twitter/tokenizer/StompFrameTokenizer.java,
-- and the loop over its messages in reactor/ProtocolTask.java.
use twitter_client_server.Prelude.{
  ℕ, zero, suc, Bool, true, false, Option, none, some, List, [], ◌∷◌, ◌++◌, ◌==◌, if◌then◌else◌,
  length,
}
use twitter_client_server.Prelude.Text.{Text}

-- The buffer cut at its first delimiter.
unfoldable pub take_message : Text → Option (Text × Text)
take_message [] = none
take_message (c ∷ s) =
    let later = take_message s in
    elim (c == 0) [
      | true ↦ some ([], s)
      | false ↦ elim later [ none ↦ none | some (m, rest) ↦ some (c ∷ m, rest) ]
    ]

-- `decode` is what one call of the decoder makes of a chunk; bytes that it leaves over are lost.
pub record Tokenizer : Type 0 where
  pub string_buf : Text
  pub buffers : List (List ℕ)

abbrev pub fresh_tokenizer : Tokenizer
fresh_tokenizer = record { string_buf = []; buffers = [] }

unfoldable pub add_bytes : List ℕ → Tokenizer → Tokenizer
add_bytes b t = record t { buffers = t.buffers ++ b ∷ [] }

abbrev listed : Option Text → List Text
listed none = []
listed (some m) = m ∷ []

module _ (decode : List ℕ → Text) where
  -- The loop of `hasMessage`.
  unfoldable pub absorb : List (List ℕ) → Text → Text
  absorb [] buf = buf
  absorb (b ∷ bs) buf = absorb bs (buf ++ decode b)

  unfoldable pub has_message : Tokenizer → Tokenizer × Bool
  unfolding absorb
  has_message t =
      let buf = absorb t.buffers t.string_buf in
      (
        record { string_buf = buf; buffers = [] },
        elim (take_message buf) [ none ↦ false | some p ↦ true ],
      )

  unfoldable pub next_message : Tokenizer → Option Text × Tokenizer
  next_message t = elim (take_message t.string_buf) [
    | none ↦ (none, t)
    | some (m, rest) ↦ (some m, record t { string_buf = rest })
  ]

  -- `run`, up to what it does with a message: each round takes a delimiter out of the buffer.
  unfoldable pub take_messages : ℕ → Tokenizer → List Text × Tokenizer
  unfolding has_message next_message
  take_messages zero t = ([], (has_message t).0)
  take_messages (suc fuel) t =
      let ready = has_message t in
      let taken = next_message ready.0 in
      let more = take_messages fuel taken.1 in
      if ready.1 then (listed taken.0 ++ more.0, more.1) else ([], ready.0)

  unfoldable pub run_task : Tokenizer → List Text × Tokenizer
  unfolding take_messages absorb
  run_task t = take_messages (length (absorb t.buffers t.string_buf)) t

  -- The chunks as they are read, each followed by a run of the task.
  unfoldable pub read_chunks : List (List ℕ) → Tokenizer → List Text × Tokenizer
  unfolding run_task
  read_chunks [] t = ([], t)
  read_chunks (b ∷ bs) t =
      let now = run_task (add_bytes b t) in
      let later = read_chunks bs now.1 in (now.0 ++ later.0, later.1)
