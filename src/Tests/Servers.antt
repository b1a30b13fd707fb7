-- ===== src/Tests/Servers.antt =====
-- The servers on short runs.
use boost.Prelude.{◌≡◌, ◌≢◌, refl, ℕ, false, [], ◌∷◌, ◌++◌, none, Bytes, codes, map}
use boost.Prelude.Int.{ℤ, pos}
use boost.Asio.Connection.{failure, success}
use boost.Asio.HttpServer
use boost.Asio.HttpServer.Tidy.{IsAccounted}
use boost.Asio.HttpServer.Stopping.{make_server-Reach, handle_stop-Reach}
use boost.Asio.ChatMessage.{ChatMessage}
use boost.Asio.ChatServer
use boost.Asio.ChatServer.Delivery.{said, sent, play, play-said_msgs}
use boost.Asio.ChatServer.Invariant
use boost.Asio.ChatServer.Soundness
use boost.Asio.ChatServer.Invariant.{Reach-IsSound}
use boost.Asio.Timeouts
use boost.Asio.Timeouts.Reaching
use boost.Asio.Timeouts.Running
use boost.Asio.Timeouts.Running.{Reach-IsSoundAt}
use boost.Asio.TimeoutClient
use boost.Asio.TimeoutClient.Trying
use boost.Asio.TimeoutClient.Connecting.{IsTrying}
use boost.Asio.TimeoutClient.Trying.{Reach-IsTrying}
use boost.Tests.Requests.{env, no_reply}

-- One connection is accepted, and its read fails.
abbrev running : HttpServer.Server
running = HttpServer.handle_accept no_reply success (HttpServer.make_server no_reply)

accepted_run :
    HttpServer.Reach env (codes "/www") no_reply (HttpServer.make_server no_reply) running
unfolding HttpServer.make_server HttpServer.start_accept
accepted_run = HttpServer.next HttpServer.here (HttpServer.accepted success refl)

make_server-Reach_example : IsAccounted running
make_server-Reach_example = make_server-Reach env (codes "/www") no_reply accepted_run

handle_stop-Reach_example :
    ((HttpServer.handle_stop running).is_open ≡ false)
    × ((HttpServer.handle_stop running).connections ≡ [])
    × ((i : ℕ)
        → ((HttpServer.handle_stop running).objects i).pending ≢ none
        → ((HttpServer.handle_stop running).objects i).is_open ≡ false)
handle_stop-Reach_example =
    handle_stop-Reach env (codes "/www") no_reply accepted_run HttpServer.here

-- Two participants and a message.
abbrev hello : ChatMessage
hello = record { data_ = codes "   5hello"; body_length_ = 5 }

abbrev silent : ChatServer.Session
silent = record { read_msg = hello; write_msgs = []; reading = none; writing = [] }

abbrev new_room : ChatServer.Room
new_room = record { participants = []; recent_msgs = []; sessions = λ i. silent }

abbrev room : ChatServer.Room
room = ChatServer.start 7 (ChatServer.start 3 new_room)

play-said_msgs_example :
    ((play (said hello ∷ said hello ∷ sent ∷ []) silent).0
        ++ map ChatServer.wire (play (said hello ∷ said hello ∷ sent ∷ []) silent).1.write_msgs
      ≡ ChatServer.wire hello ∷ ChatServer.wire hello ∷ [])
    × ((play (said hello ∷ said hello ∷ sent ∷ []) silent).1.writing
        ≡ ChatServer.write_front (play (said hello ∷ said hello ∷ sent ∷ []) silent).1.write_msgs)
play-said_msgs_example = play-said_msgs (said hello ∷ said hello ∷ sent ∷ []) silent refl

abbrev no_number : Bytes → ℤ
no_number s = pos 0

Reach-IsSound_example : ChatServer.Soundness.IsSound (ChatServer.start 3 new_room)
Reach-IsSound_example =
    Reach-IsSound no_number {room = new_room}
      (record { nobody = refl; nothing = refl; idle = λ j. refl })
      (ChatServer.Invariant.next ChatServer.Invariant.here
        (ChatServer.Invariant.started 3 refl refl))

-- A session of the server with deadlines starts, and its input deadline is checked too late.
abbrev new_channel : Timeouts.Channel
new_channel = record { subscribers = []; sessions = λ i. Timeouts.make_session; broadcasts = [] }

abbrev started_channel : Timeouts.Channel
started_channel = Timeouts.start 0 4 new_channel

Reach-IsSoundAt_example : Timeouts.Reaching.IsSoundAt (Timeouts.check_input 31 4 started_channel) 4
unfolding Timeouts.start Timeouts.start_read Timeouts.await_output
Reach-IsSoundAt_example =
    Reach-IsSoundAt {ch = new_channel} (record { nobody = refl; fresh = λ j. refl })
      (Timeouts.Running.next
        (Timeouts.Running.next Timeouts.Running.here (Timeouts.Reaching.started 0 4 refl))
        (Timeouts.Reaching.input_checked 31 4 refl))
      4

-- The client with deadlines tries one endpoint, and is told that it does not answer.
Reach-IsTrying_example : IsTrying (7 ∷ []) (
    TimeoutClient.handle_connect 5 failure
      (7 ∷ [])
      (TimeoutClient.start 0 (7 ∷ []) TimeoutClient.make_client))
unfolding TimeoutClient.start TimeoutClient.start_connect
Reach-IsTrying_example =
    Reach-IsTrying 0 (7 ∷ [])
      (Trying.next Trying.here (Trying.was_connected 5 failure (7 ∷ []) refl))
