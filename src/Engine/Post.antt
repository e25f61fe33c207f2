-- ===== src/Engine/Post.antt =====
-- `send` and `processServerMessage` of twitterEngine/src/spl/twitter/engine/TwitterEngine.java.
use twitter_client_server.Prelude.{Bool, true, none, some, List, [], ◌∷◌, ◌++◌, if◌then◌else◌}
use twitter_client_server.Prelude.Text.{Text, codes, eq_text}
use twitter_client_server.Engine.{
  TopicRef, server_object, User, Engine, Reply, done, failed, server_topic_name, is_connected,
  logout,
}
use twitter_client_server.Engine.Calls.{topic_send, send_mentions, count_post}
use twitter_client_server.Engine.Mentions.{mentions, trim, without, starts_with}

-- The loop of the commands "clients" and "clients online".
unfoldable pub list_clients : Bool → List Text → (Text → User) → Text
list_clients online [] user_at = []
list_clients online (n ∷ rest) user_at =
    let others = list_clients online rest user_at in
    let listed = n ++ codes " " ++ others in
    if online then if is_connected (user_at n) then listed else others else listed

unfoldable pub logout_all : List Text → Engine → Engine
logout_all [] e = e
logout_all (n ∷ rest) e = logout_all rest (logout n e)

unfoldable pub stop : Engine → Engine
stop e = let e' = logout_all e.users e in record e' { stopped = true }

-- `report` is the text that `getStats` makes.
unfoldable pub process_server_message : Text → Text → Engine → Engine
process_server_message report text e =
    let command = without b'\r' (trim text) in
    let answer = λ (t : Text). (topic_send server_object t none e).0 in
    if starts_with (codes "clients") command
    then answer (list_clients (eq_text command (codes "clients online")) e.users e.user_at)
    else if eq_text command (codes "stats")
    then answer report
    else if eq_text command (codes "stop")
    then stop e
    else answer []

-- A post to the user's own topic that stands at `r`.
unfoldable pub post_to : TopicRef → Text → Engine → Engine
post_to r text e =
    let (e', delivered) = topic_send r text none e in
    count_post (send_mentions r text delivered (mentions text) e')

unfoldable pub post : Text → Text → Text → Text → Engine → Engine × Reply
post report user destination text e = elim (e.topics destination) [
  | none ↦ (
    e,
    failed (codes "No topic found") (codes "FATAL Error! Please contact server administator ASAP"),
  )
  | some r ↦
      if eq_text destination server_topic_name
      then (process_server_message report text e, done)
      else if eq_text ((e.user_at user).username) destination
      then (post_to r text e, done)
      else (
        e,
        failed (codes "Oops.") (
            codes
              "You cannot post on behalf other user.\nThis action was reported to the server administator."),
      )
]
