-- ===== src/Asio/ChatServer.antt =====
-- doc_searcher/data/input/html/boost_asio/example/chat/chat_server.cpp: the room and the sessions of
-- the chat server. A pointer to a session is a number; the asynchronous operations that are under
-- way are fields of their session.
pub mod Recent
pub mod Delivery
pub mod Soundness
pub mod Invariant
use boost.Prelude.{
  ◌+◌, ◌≡◌, ℕ, Bool, true, false, not, Option, List, [], ◌∷◌, ◌++◌, none, some, ◌==◌, ltb,
  if◌then◌else◌, Bytes, length, take, drop,
}
use boost.Prelude.Int.{ℤ}
use boost.Asio.Connection.{ErrorCode, success, operation_aborted, failure, insert, erase}
use boost.Asio.ChatMessage.{ChatMessage, header_length, message_length, body, decode_header}

-- What `async_read` is filling: the header of `read_msg_`, or its body.
pub data Part : Type 0 where
  header_part body_part : Part

-- `chat_session`. `writing` has the bytes of every write that is under way, the oldest first; the
-- oldest completes first.
pub record Session : Type 0 where
  pub read_msg : ChatMessage
  pub write_msgs : List ChatMessage
  pub reading : Option Part
  pub writing : List Bytes

-- `chat_room`, and the sessions that its pointers lead to.
pub record Room : Type 0 where
  pub participants : List ℕ
  pub recent_msgs : List ChatMessage
  pub sessions : ℕ → Session

abbrev pub max_recent_msgs : ℕ
max_recent_msgs = 100

-- `buffer(msg.data(), msg.length())`.
abbrev pub wire : ChatMessage → Bytes
wire msg = take (header_length + msg.body_length_) msg.data_

-- `async_write` of the front of the queue.
abbrev pub write_front : List ChatMessage → List Bytes
write_front [] = []
write_front (msg ∷ _) = wire msg ∷ []

-- `chat_session::deliver`: a write is started, next to those under way, where none is in progress.
unfoldable pub deliver_to : ChatMessage → Session → Session
deliver_to msg c =
    let write_msgs = c.write_msgs ++ msg ∷ [] in
    record c {
      write_msgs = write_msgs;
      writing = elim c.write_msgs [ [] ↦ c.writing ++ write_front write_msgs | _ ∷ _ ↦ c.writing ];
    }

abbrev pub update : ℕ → (Session → Session) → (ℕ → Session) → ℕ → Session
update p f sessions = λ j. if j == p then f (sessions j) else sessions j

-- `for_each` over the messages, for one session, and over the sessions, for one message.
unfoldable pub deliver_all : List ChatMessage → Session → Session
deliver_all [] c = c
deliver_all (msg ∷ msgs) c = deliver_all msgs (deliver_to msg c)

unfoldable pub deliver_each : ChatMessage → List ℕ → (ℕ → Session) → ℕ → Session
deliver_each msg [] sessions = sessions
deliver_each msg (p ∷ ps) sessions = deliver_each msg ps (update p (deliver_to msg) sessions)

-- The loop that shortens the queue of recent messages.
unfoldable pub pop_old : List ChatMessage → List ChatMessage
pop_old [] = []
pop_old (msg ∷ msgs) = elim (ltb max_recent_msgs (length (msg ∷ msgs))) [
  | true ↦ pop_old msgs
  | false ↦ msg ∷ msgs
]

-- `chat_room::join`, `leave` and `deliver`.
unfoldable pub join : ℕ → Room → Room
join p room = record room {
  participants = insert p room.participants;
  sessions = update p (deliver_all room.recent_msgs) room.sessions;
}

unfoldable pub leave : ℕ → Room → Room
leave p room = record room { participants = erase p room.participants }

unfoldable pub deliver : ChatMessage → Room → Room
deliver msg room = record room {
  recent_msgs = pop_old (room.recent_msgs ++ msg ∷ []);
  sessions = deliver_each msg room.participants room.sessions;
}

abbrev pub change : ℕ → (Session → Session) → Room → Room
change p f room = record room { sessions = update p f room.sessions }

abbrev pub read_part : Option Part → Session → Session
read_part part c = record c { reading = part }

unfoldable pub start : ℕ → Room → Room
unfolding join
start p room = change p (read_part (some header_part)) (join p room)

-- The bytes that a read has put in place of the header, and behind it.
abbrev pub fill_header : Bytes → ChatMessage → ChatMessage
fill_header bytes m = record m { data_ = bytes ++ drop header_length m.data_ }

abbrev pub fill_body : Bytes → ChatMessage → ChatMessage
fill_body bytes m = record m {
  data_ = take header_length m.data_ ++ bytes ++ drop (header_length + m.body_length_) m.data_;
}

unfoldable pub handle_read_header : (atoi : Bytes → ℤ) → ℕ → ErrorCode → Bytes → Room → Room
unfolding leave
handle_read_header atoi p success bytes room =
    let decoded = decode_header atoi (fill_header bytes (room.sessions p).read_msg) in
    elim decoded.1 [
      | true ↦ change p (λ c. record c { read_msg = decoded.0; reading = some body_part }) room
      | false ↦ leave p (change p (λ c. record c { read_msg = decoded.0; reading = none }) room)
    ]
handle_read_header atoi p operation_aborted bytes room = leave p (change p (read_part none) room)
handle_read_header atoi p failure bytes room = leave p (change p (read_part none) room)

unfoldable pub handle_read_body : ℕ → ErrorCode → Bytes → Room → Room
unfolding leave deliver
handle_read_body p success bytes room =
    let msg = fill_body bytes (room.sessions p).read_msg in
    change p (read_part (some header_part))
      (deliver msg (change p (λ c. record c { read_msg = msg; reading = none }) room))
handle_read_body p operation_aborted bytes room = leave p (change p (read_part none) room)
handle_read_body p failure bytes room = leave p (change p (read_part none) room)

abbrev pub pop_front : List ChatMessage → List ChatMessage
pop_front [] = []
pop_front (_ ∷ msgs) = msgs

-- The session behind a write that succeeded, the oldest.
unfoldable pub written : Session → Session
written c = record c {
  write_msgs = pop_front c.write_msgs;
  writing = drop 1 c.writing ++ write_front (pop_front c.write_msgs);
}

unfoldable pub handle_write : ℕ → ErrorCode → Room → Room
unfolding leave written
handle_write p success room = change p written room
handle_write p operation_aborted room =
    leave p (change p (λ c. record c { writing = drop 1 c.writing }) room)
handle_write p failure room = leave p (change p (λ c. record c { writing = drop 1 c.writing }) room)
