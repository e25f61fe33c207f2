-- ===== src/Engine/Examples.antt =====
-- Runs of the engine, and the theorems on it at concrete inputs.
use twitter_client_server.Prelude.{ℕ, ◌≡◌, refl, true, none, some, [], ◌∷◌, ◌++◌, arith}
use twitter_client_server.Prelude.Text.{Text, codes, eq_text, mem_text, lookup, insert}
use twitter_client_server.Engine.{
  Message, topic_of, Engine, set_user, set_topic, set_protocol, is_approved, is_connected,
  flush_messages, flush_to, poll_all, user_send, has_subscription, subscribe_to, add_subscriber,
  put_subscription, reset_entries, reset_subscriptions_info, login, eq_ref,
}
use twitter_client_server.Engine.Calls.{
  new_engine, connect, connect_known, create_user, set_topic_user, new_user, put_names, subscribe,
  unsubscribe, refused,
}
use twitter_client_server.Engine.Mentions.{mentions, scan}
use twitter_client_server.Engine.Post.{post_to}
use twitter_client_server.Engine.Inbox.{inbox}
use twitter_client_server.Engine.Mentioned.{post_copies, inbox-post_to}
use twitter_client_server.Engine.Posted.{one_entry_of}
use twitter_client_server.Engine.Sound.{IsLinked, new_engine-IsLinked}
use twitter_client_server.Engine.Linked.{connect-Serves, subscribe-Serves}
use twitter_client_server.Engine.Login.{LogsIn, login-LogsIn}
use twitter_client_server.Engine.Faults.{
  unsubscribe_one_of_two, post_copies_twice, connect_takes_over,
}

abbrev ken : Text
ken = codes "ken"

abbrev lidan : Text
lidan = codes "lidan"

abbrev eve : Text
eve = codes "eve"

abbrev joined : Text → ℕ → Engine → Engine
joined n c e = (connect n (codes "pw") c e).0

abbrev three_users : Engine
three_users = joined eve 2 (joined lidan 1 (joined ken 0 new_engine))

joined-IsLinked : (n : Text) (c : ℕ) (e : Engine) → IsLinked e → IsLinked (joined n c e)
joined-IsLinked n c e k = (connect-Serves n (codes "pw") c e k).linked

three_users-IsLinked : IsLinked three_users
three_users-IsLinked =
    joined-IsLinked eve 2 _
      (joined-IsLinked lidan 1 _ (joined-IsLinked ken 0 _ new_engine-IsLinked))

eve_known : mem_text eve three_users.users ≡ true
unfolding connect connect_known create_user set_topic_user new_user put_names subscribe login
    is_approved is_connected set_protocol flush_messages flush_to reset_entries
    reset_subscriptions_info set_user set_topic subscribe_to add_subscriber put_subscription eq_ref
    has_subscription lookup insert mem_text eq_text
eve_known = refl

abbrev following : Engine
following = (subscribe (codes "7") ken eve three_users).0

following-IsLinked : IsLinked following
following-IsLinked =
    (subscribe-Serves (codes "7") ken eve three_users three_users-IsLinked eve_known).linked

eve_still_known : mem_text eve following.users ≡ true
unfolding connect connect_known create_user set_topic_user new_user put_names subscribe login
    is_approved is_connected set_protocol flush_messages flush_to reset_entries
    reset_subscriptions_info set_user set_topic subscribe_to add_subscriber put_subscription eq_ref
    has_subscription lookup insert mem_text eq_text
eve_still_known = refl

abbrev following_twice : Engine
following_twice = (subscribe (codes "8") ken eve following).0

following_twice-IsLinked : IsLinked following_twice
following_twice-IsLinked =
    (subscribe-Serves (codes "8") ken eve following following-IsLinked eve_still_known).linked

abbrev following_both : Engine
following_both = (subscribe (codes "8") lidan eve following).0

inbox-post_to_example :
    inbox (post_to (topic_of lidan) (codes "to @ken") following_both) eve
    ≡ inbox following_both eve ++ post_copies following_both (topic_of lidan) (codes "to @ken") eve
inbox-post_to_example = inbox-post_to (topic_of lidan) (codes "to @ken") following_both eve (
    one_entry_of
      (subscribe-Serves (codes "8") lidan eve following following-IsLinked eve_still_known).linked)

right_password : is_approved (codes "pw") (following.user_at eve) ≡ true
unfolding connect connect_known create_user set_topic_user new_user put_names subscribe login
    is_approved is_connected set_protocol flush_messages flush_to reset_entries
    reset_subscriptions_info set_user set_topic subscribe_to add_subscriber put_subscription eq_ref
    has_subscription lookup insert mem_text eq_text
right_password = refl

login-LogsIn_example : LogsIn eve following (login (codes "pw") 5 eve following).0
login-LogsIn_example = login-LogsIn (codes "pw") 5 eve following following-IsLinked right_password

first_id :
    lookup (codes "7") ((following_twice.user_at eve).subscribed_topics) ≡ some (topic_of ken)
unfolding connect connect_known create_user set_topic_user new_user put_names subscribe login
    is_approved is_connected set_protocol flush_messages flush_to reset_entries
    reset_subscriptions_info set_user set_topic subscribe_to add_subscriber put_subscription eq_ref
    has_subscription lookup insert mem_text eq_text
first_id = refl

second_id :
    lookup (codes "8") ((following_twice.user_at eve).subscribed_topics) ≡ some (topic_of ken)
unfolding connect connect_known create_user set_topic_user new_user put_names subscribe login
    is_approved is_connected set_protocol flush_messages flush_to reset_entries
    reset_subscriptions_info set_user set_topic subscribe_to add_subscriber put_subscription eq_ref
    has_subscription lookup insert mem_text eq_text
second_id = refl

unsubscribe_one_of_two_example :
    (lookup
        (codes "8")
        (((unsubscribe (codes "7") eve following_twice).0.user_at eve).subscribed_topics)
      ≡ some (topic_of ken))
    × (lookup eve
          (((unsubscribe (codes "7") eve following_twice).0.object_at (topic_of ken)).subscribers)
        ≡ none)
unsubscribe_one_of_two_example =
    unsubscribe_one_of_two (codes "7") (codes "8") eve (topic_of ken) following_twice
      following_twice-IsLinked first_id second_id (λ e. ground arith) (λ e. ground arith)

abbrev four_users : Engine
four_users = joined (codes "dan") 3 following_both

four_users-IsLinked : IsLinked four_users
four_users-IsLinked =
    joined-IsLinked (codes "dan") 3 _
      (subscribe-Serves (codes "8") lidan eve following following-IsLinked eve_still_known).linked

abbrev two_names : Text
two_names = codes "hi @ken @lidan"

two_mentions : mentions two_names ≡ ken ∷ lidan ∷ []
unfolding mentions scan
two_mentions = refl

ken_topic : four_users.topics ken ≡ some (topic_of ken)
unfolding connect connect_known create_user set_topic_user new_user put_names subscribe login
    is_approved is_connected set_protocol flush_messages flush_to reset_entries
    reset_subscriptions_info set_user set_topic subscribe_to add_subscriber put_subscription eq_ref
    has_subscription lookup insert mem_text eq_text
ken_topic = refl

lidan_topic : four_users.topics lidan ≡ some (topic_of lidan)
unfolding connect connect_known create_user set_topic_user new_user put_names subscribe login
    is_approved is_connected set_protocol flush_messages flush_to reset_entries
    reset_subscriptions_info set_user set_topic subscribe_to add_subscriber put_subscription eq_ref
    has_subscription lookup insert mem_text eq_text
lidan_topic = refl

not_of_dan : lookup eve ((four_users.object_at (topic_of (codes "dan"))).subscribers) ≡ none
unfolding connect connect_known create_user set_topic_user new_user put_names subscribe login
    is_approved is_connected set_protocol flush_messages flush_to reset_entries
    reset_subscriptions_info set_user set_topic subscribe_to add_subscriber put_subscription eq_ref
    has_subscription lookup insert mem_text eq_text
not_of_dan = refl

of_ken : lookup eve ((four_users.object_at (topic_of ken)).subscribers) ≡ some (codes "7")
unfolding connect connect_known create_user set_topic_user new_user put_names subscribe login
    is_approved is_connected set_protocol flush_messages flush_to reset_entries
    reset_subscriptions_info set_user set_topic subscribe_to add_subscriber put_subscription eq_ref
    has_subscription lookup insert mem_text eq_text
of_ken = refl

of_lidan : lookup eve ((four_users.object_at (topic_of lidan)).subscribers) ≡ some (codes "8")
unfolding connect connect_known create_user set_topic_user new_user put_names subscribe login
    is_approved is_connected set_protocol flush_messages flush_to reset_entries
    reset_subscriptions_info set_user set_topic subscribe_to add_subscriber put_subscription eq_ref
    has_subscription lookup insert mem_text eq_text
of_lidan = refl

post_copies_twice_example :
    inbox (post_to (topic_of (codes "dan")) two_names four_users) eve
    ≡ inbox four_users eve
      ++ record {
        destination = (four_users.object_at (topic_of ken)).topic_name;
        subscription_id = codes "7";
        message = two_names;
      }
        ∷ record {
          destination = (four_users.object_at (topic_of lidan)).topic_name;
          subscription_id = codes "8";
          message = two_names;
        }
        ∷ []
post_copies_twice_example =
    post_copies_twice (topic_of (codes "dan")) (topic_of ken) (topic_of lidan) two_names ken lidan
      eve (codes "7") (codes "8") four_users two_mentions ken_topic lidan_topic not_of_dan of_ken
      of_lidan (one_entry_of four_users-IsLinked)

eve_on : is_connected (three_users.user_at eve) ≡ true
unfolding connect connect_known create_user set_topic_user new_user put_names subscribe login
    is_approved is_connected set_protocol flush_messages flush_to reset_entries
    reset_subscriptions_info set_user set_topic subscribe_to add_subscriber put_subscription eq_ref
    has_subscription lookup insert mem_text eq_text
eve_on = refl

abbrev letter : Message
letter = record { destination = ken; subscription_id = codes "7"; message = codes "hi" }

connect_takes_over_example :
    ((connect eve (codes "wrong") 9 three_users).1 ≡ refused (codes "Already logged in") none)
    × ((user_send letter eve (connect eve (codes "wrong") 9 three_users).0).sent
        ≡ three_users.sent ++ poll_all eve 9 ((three_users.user_at eve).messages ++ letter ∷ []))
connect_takes_over_example =
    connect_takes_over eve (codes "wrong") 9 letter three_users eve_known eve_on
