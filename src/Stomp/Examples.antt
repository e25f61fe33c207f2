-- ===== src/Stomp/Examples.antt =====
-- Runs of the server and of its tokenizer, and the theorems on frames at concrete inputs.
use twitter_client_server.Prelude.{ℕ, ◌≡◌, refl, true, none, some, List, [], ◌∷◌, ◌++◌, arith}
use twitter_client_server.Prelude.Text.{Text, codes, mem_text, eq_text, lookup}
use twitter_client_server.Engine
use twitter_client_server.Engine.{Message, Engine}
use twitter_client_server.Engine.Inbox.{inbox}
use twitter_client_server.Stomp.{
  Frame, connect_frame, subscribe_frame, send_frame, disconnect_frame, missing_header,
  print_headers, newline,
}
use twitter_client_server.Stomp.Parse.{
  is_request, lines_from, drop_empty_end, keep_line, lines, join_body,
}
use twitter_client_server.Stomp.Tokenizer.{read_chunks, fresh_tokenizer}
use twitter_client_server.Stomp.Chunks.{pieces, decoded, read_chunks-pieces}
use twitter_client_server.Stomp.Wire.{IsRequest, parse_all, as_read, read_chunks-send_lines}
use twitter_client_server.Stomp.Client.{to_string, send_line, send_lines, received_body}
use twitter_client_server.Stomp.Server.{Moment, Server, new_server}
use twitter_client_server.Stomp.Protocol.{receive, process_message, process_frame}
use twitter_client_server.Stomp.Service.{IsServed, new_server-IsServed}
use twitter_client_server.Stomp.Rounds.{Round, run, told, run-IsServed, run-inbox}
use twitter_client_server.Stomp.Locked.{run_locked}
use twitter_client_server.Stomp.Frames.{Flow, delivered, answers}
use twitter_client_server.Stomp.Frames.Runs.{run-Flows}
use twitter_client_server.Engine.Calls
use twitter_client_server.Engine.Mentions.{mentions, scan, starts_with, trim, trim_start, without}
use twitter_client_server.Engine.Copies.{copy_by}
use twitter_client_server.Engine.Mentioned.{post_copies, mention_copies}
use twitter_client_server.Engine.Post.{post, post_to, process_server_message, list_clients}
use twitter_client_server.Engine.Posted.{copies_of_post, answer_copies, server_answer}
use twitter_client_server.Stomp.Server.{
  flush_queue, with_engine, send_messages, queue_frame, erase_from, topic_name_of,
}
use twitter_client_server.Stomp.Protocol.{
  on_authorized, with_header, connect_with, on_connect, on_request, on_send, on_subscribe, respond,
}
use twitter_client_server.Stomp.Service.{gives}
use twitter_client_server.Prelude.Text.{insert}

abbrev now : Moment
now = record { uuid = codes "id"; timestamp = codes "1"; report = codes "stats" }

abbrev round_of : ℕ → Frame → Round
round_of c f = record { moment = now; connection = c; frame = some f }

abbrev logins : List Round
logins =
    round_of 0 (connect_frame (codes "h") (codes "ken") (codes "a"))
    ∷ round_of 1 (connect_frame (codes "h") (codes "lidan") (codes "b"))
    ∷ []

abbrev talk : List Round
talk =
    round_of 1 (subscribe_frame (codes "/topic/ken") (codes "7"))
    ∷ round_of 0 (send_frame (codes "/topic/ken") (codes "hi @lidan"))
    ∷ []

abbrev opened : Server
unfolding run
opened = run logins new_server

abbrev greeting : Message
greeting = record {
  destination = codes "ken";
  subscription_id = codes "7";
  message = codes "hi @lidan";
}

talk-told : told talk opened (codes "lidan") ≡ greeting ∷ []
unfolding told opened receive respond process_message process_frame connect_with on_authorized
    with_header lookup eq_text on_connect Calls.connect mem_text flush_queue with_engine
    send_messages Calls.create_user Calls.set_topic_user Engine.subscribe_to Calls.connect_known
    Calls.count_message Calls.count_post Calls.deliver Calls.increment_mentioned
    Calls.increment_mentions Calls.new_user Calls.put_names Calls.send_mention Calls.send_mentions
    Calls.subscribe Calls.topic_send Engine.add_subscriber Engine.enqueue Engine.eq_ref
    Engine.flush_messages Engine.flush_to Engine.has_subscription Engine.is_approved
    Engine.is_connected Engine.login Engine.poll_all Engine.put_subscription Engine.reset_entries
    Engine.reset_subscriptions_info Engine.set_protocol Engine.set_topic Engine.set_user
    Engine.unsubscribe_user Engine.user_send insert on_request on_send on_subscribe run erase_from
    queue_frame topic_name_of copy_by mention_copies post_copies mentions scan starts_with trim
    trim_start without list_clients post post_to process_server_message answer_copies copies_of_post
    server_answer gives
talk-told = refl

opened_users : (opened.engine).users ≡ codes "ken" ∷ codes "lidan" ∷ []
unfolding opened receive respond process_message process_frame connect_with on_authorized
    with_header lookup eq_text on_connect Calls.connect mem_text flush_queue with_engine
    send_messages Calls.create_user Calls.set_topic_user Engine.subscribe_to Calls.connect_known
    Calls.count_message Calls.count_post Calls.deliver Calls.increment_mentioned
    Calls.increment_mentions Calls.new_user Calls.put_names Calls.send_mention Calls.send_mentions
    Calls.subscribe Calls.topic_send Engine.add_subscriber Engine.enqueue Engine.eq_ref
    Engine.flush_messages Engine.flush_to Engine.has_subscription Engine.is_approved
    Engine.is_connected Engine.login Engine.poll_all Engine.put_subscription Engine.reset_entries
    Engine.reset_subscriptions_info Engine.set_protocol Engine.set_topic Engine.set_user
    Engine.unsubscribe_user Engine.user_send insert on_request on_send on_subscribe run erase_from
    queue_frame topic_name_of copy_by mention_copies post_copies mentions scan starts_with trim
    trim_start without list_clients post post_to process_server_message answer_copies copies_of_post
    server_answer gives
opened_users = refl

opened-IsServed : IsServed opened
unfolding opened
opened-IsServed = run-IsServed logins new_server new_server-IsServed

lidan_known : mem_text (codes "lidan") (opened.engine).users ≡ true
lidan_known = rw opened_users (unfold mem_text in unfold eq_text in refl)

run-IsServed_example : IsServed (run talk opened)
run-IsServed_example = run-IsServed talk opened opened-IsServed

run-inbox_example :
    inbox (run talk opened).engine (codes "lidan")
    ≡ inbox opened.engine (codes "lidan") ++ told talk opened (codes "lidan")
run-inbox_example = run-inbox talk opened (codes "lidan") opened-IsServed lidan_known

-- Two requests in three chunks of bytes, of which each is one character.
abbrev same_codes : List ℕ → Text
same_codes b = b

-- The DISCONNECT frame of the client has its default body, a line break.
abbrev last_frame : Frame
last_frame = record (disconnect_frame (codes "9")) { body = newline }

abbrev requests : List Frame
requests = send_frame (codes "/topic/ken") (codes "hi") ∷ last_frame ∷ []

abbrev chunks : List (List ℕ)
chunks =
    codes "SEND\ndestination:/to"
    ∷ (codes "pic/ken\n\n\nhi\n" ++ 0 ∷ codes "\nDISC")
    ∷ (codes "ONNECT\nreceipt:9\n\n\n\n\n" ++ 0 ∷ newline)
    ∷ []

send-IsRequest : IsRequest (send_frame (codes "/topic/ken") (codes "hi"))
unfolding is_request missing_header lookup eq_text print_headers trim trim_start
send-IsRequest = record {
  request = refl;
  whole = refl;
  plain = (record { key = refl; no_colon = omega arith; one_line = omega arith; tight = refl }, tt);
  unique = (refl, tt);
  no_delimiter = omega arith;
}

disconnect-IsRequest : IsRequest last_frame
unfolding is_request missing_header lookup eq_text print_headers trim trim_start
disconnect-IsRequest = record {
  request = refl;
  whole = refl;
  plain = (record { key = refl; no_colon = omega arith; one_line = omega arith; tight = refl }, tt);
  unique = (refl, tt);
  no_delimiter = omega arith;
}

chunks_spell : decoded same_codes chunks ≡ send_lines requests
unfolding send_lines send_line to_string print_headers
chunks_spell = refl

read_chunks-send_lines_example :
    (parse_all (read_chunks same_codes chunks fresh_tokenizer).0 ≡ as_read requests)
    × ((read_chunks same_codes chunks fresh_tokenizer).1.string_buf ≡ newline)
read_chunks-send_lines_example =
    read_chunks-send_lines same_codes chunks requests (send-IsRequest, (disconnect-IsRequest, tt))
      chunks_spell

second_body : received_body (codes "hi") ≡ codes "\thi\t"
unfolding received_body lines lines_from drop_empty_end keep_line join_body trim trim_start
second_body = refl

read_chunks-pieces_example : read_chunks same_codes chunks fresh_tokenizer ≡ (
  (pieces [] (decoded same_codes chunks)).0,
  record { string_buf = (pieces [] (decoded same_codes chunks)).1; buffers = [] },
)
read_chunks-pieces_example = read_chunks-pieces same_codes chunks

run-Flows_example :
    Flow
      (delivered (logins ++ talk) new_server 1)
      (answers (logins ++ talk) new_server 1)
      ((run (logins ++ talk) new_server).written 1)
      ((run (logins ++ talk) new_server).messages_queue 1)
run-Flows_example = run-Flows (logins ++ talk) 1

abbrev strangers : List Round
strangers =
    round_of 3 (send_frame (codes "/topic/ken") (codes "hi"))
    ∷ record { moment = now; connection = 2; frame = none }
    ∷ round_of 3 (disconnect_frame (codes "9"))
    ∷ []

run_locked_example :
    ((run strangers new_server).engine ≡ new_server.engine)
    × ((b : ℕ) → (run strangers new_server).current_user b ≡ none)
run_locked_example = run_locked strangers new_server ((λ e. cc), (tt, ((λ e. cc), tt))) (λ b. refl)
