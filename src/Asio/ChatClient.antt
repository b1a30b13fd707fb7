-- ===== src/Asio/ChatClient.antt =====
-- doc_searcher/data/input/html/boost_asio/example/chat/chat_client.cpp: the client of the chat
-- server. What is posted to the io_service is kept in order; the operations that are under way are
-- fields. `sprintf` with "%4d" and `atoi` are arguments.
pub mod Frames
pub mod Reader
pub mod Printing
pub mod Serving
pub mod Sending
pub mod Conversation
use boost.Prelude.{
  ◌+◌, ℕ, Bool, true, false, not, Option, List, [], ◌∷◌, ◌++◌, none, some, ltb, if◌then◌else◌,
  Bytes, length, take, drop,
}
use boost.Prelude.Int.{ℤ}
use boost.Asio.Connection.{ErrorCode, success, operation_aborted, failure}
use boost.Asio.ChatMessage.{
  ChatMessage, header_length, body, set_body_length, decode_header, encode_header,
}
use boost.Asio.ChatServer.{
  Part, header_part, body_part, write_front, pop_front, fill_header, fill_body,
}

-- What `write` and `close` post.
pub data Task : Type 0 where
  do_write_task : ChatMessage → Task
  do_close_task : Task

-- `writing` has the bytes of every write that is under way, the oldest first; the oldest completes
-- first.
pub record Client : Type 0 where
  pub is_open : Bool
  pub read_msg : ChatMessage
  pub write_msgs : List ChatMessage
  pub reading : Option Part
  pub writing : List Bytes
  pub posted : List Task
  pub printed : Bytes

abbrev pub do_close : Client → Client
do_close c = record c { is_open = false }

unfoldable pub do_write : ChatMessage → Client → Client
do_write msg c =
    let write_msgs = c.write_msgs ++ msg ∷ [] in
    record c {
      write_msgs = write_msgs;
      writing = elim c.write_msgs [ [] ↦ c.writing ++ write_front write_msgs | _ ∷ _ ↦ c.writing ];
    }

-- `write` and `close`, from the thread of `main`.
unfoldable pub write : ChatMessage → Client → Client
write msg c = record c { posted = c.posted ++ do_write_task msg ∷ [] }

unfoldable pub close : Client → Client
close c = record c { posted = c.posted ++ do_close_task ∷ [] }

-- The io_service runs what was posted first.
unfoldable pub run_task : Task → Client → Client
unfolding do_write
run_task (do_write_task msg) c = do_write msg c
run_task do_close_task c = do_close c

unfoldable pub run_next : Client → Client
unfolding run_task
run_next c = elim c.posted [ [] ↦ c | task ∷ tasks ↦ run_task task (record c { posted = tasks }) ]

unfoldable pub handle_connect : ErrorCode → Client → Client
handle_connect success c = record c { reading = some header_part }
handle_connect operation_aborted c = c
handle_connect failure c = c

unfoldable pub handle_read_header : (atoi : Bytes → ℤ) → ErrorCode → Bytes → Client → Client
handle_read_header atoi success bytes c =
    let decoded = decode_header atoi (fill_header bytes c.read_msg) in
    if decoded.1
    then record c { read_msg = decoded.0; reading = some body_part }
    else do_close (record c { read_msg = decoded.0; reading = none })
handle_read_header atoi operation_aborted bytes c = do_close (record c { reading = none })
handle_read_header atoi failure bytes c = do_close (record c { reading = none })

unfoldable pub handle_read_body : ErrorCode → Bytes → Client → Client
unfolding body
handle_read_body success bytes c =
    let msg = fill_body bytes c.read_msg in
    record c {
      read_msg = msg;
      printed = (c.printed ++ take msg.body_length_ (body msg)) ++ b'\n' ∷ [];
      reading = some header_part;
    }
handle_read_body operation_aborted bytes c = do_close (record c { reading = none })
handle_read_body failure bytes c = do_close (record c { reading = none })

unfoldable pub handle_write : ErrorCode → Client → Client
handle_write success c = record c {
  write_msgs = pop_front c.write_msgs;
  writing = drop 1 c.writing ++ write_front (pop_front c.write_msgs);
}
handle_write operation_aborted c = do_close (record c { writing = drop 1 c.writing })
handle_write failure c = do_close (record c { writing = drop 1 c.writing })

-- The message that `main` makes of a line; `blank` is what its array held.
unfoldable pub make_message : (sprintf_4d : ℕ → Bytes) → (blank line : Bytes) → ChatMessage
unfolding set_body_length encode_header
make_message sprintf_4d blank line =
    let msg = set_body_length (record { data_ = blank; body_length_ = 0 }) (length line) in
    encode_header sprintf_4d (fill_body (take msg.body_length_ line) msg)
