-- ===== src/Asio/TimeoutClient.antt =====
-- doc_searcher/data/input/html/boost_asio/example/timeouts/async_tcp_client.cpp: the client with
-- deadlines. Time counts seconds, an iterator of the resolver is the list of the endpoints from its
-- place on, and an asynchronous operation that is under way is a field of the client.
pub mod Connecting
pub mod Talking
pub mod Trying
use boost.Prelude.{
  ◌+◌, ◌≡◌, ℕ, Bool, true, false, not, Option, List, [], ◌∷◌, ◌++◌, none, some, if◌then◌else◌,
  Bytes,
}
use boost.Asio.Connection.{ErrorCode, success, operation_aborted, failure}
use boost.Asio.Timeouts.{getline, has_passed}

-- The actor for heartbeats: none, in a write, or waiting on its timer.
pub data Heartbeat : Type 0 where
  silent beating resting : Heartbeat

-- `client`, with the endpoints that it has tried and the lines that it has printed.
pub record Client : Type 0 where
  pub stopped : Bool
  pub is_open : Bool
  pub input_buffer : Bytes
  pub deadline : Option ℕ
  pub is_checking : Bool
  pub connecting : Option (List ℕ)
  pub is_reading : Bool
  pub heartbeat_timer : Heartbeat
  pub tried : List ℕ
  pub lines : List Bytes

abbrev pub make_client : Client
make_client = record {
  stopped = false;
  is_open = false;
  input_buffer = [];
  deadline = none;
  is_checking = false;
  connecting = none;
  is_reading = false;
  heartbeat_timer = silent;
  tried = [];
  lines = [];
}

-- `stop`; the handlers of what it cancels still run.
unfoldable pub stop : Client → Client
stop c = record c { stopped = true; is_open = false }

-- `async_connect` opens the socket.
unfoldable pub start_connect : (now : ℕ) → List ℕ → Client → Client
unfolding stop
start_connect now [] c = stop c
start_connect now (endpoint ∷ rest) c = record c {
  deadline = some (now + 60);
  connecting = some (endpoint ∷ rest);
  is_open = true;
  tried = c.tried ++ endpoint ∷ [];
}

unfoldable pub start : (now : ℕ) → List ℕ → Client → Client
unfolding start_connect
start now endpoints c = record (start_connect now endpoints c) { is_checking = true }

unfoldable pub start_read : (now : ℕ) → Client → Client
start_read now c = record c { deadline = some (now + 30); is_reading = true }

unfoldable pub start_write : Client → Client
start_write c = record c { heartbeat_timer = if c.stopped then silent else beating }

-- `++endpoint_iter`.
abbrev pub behind : List ℕ → List ℕ
behind [] = []
behind (_ ∷ rest) = rest

-- A connect that is over, in a client that is not stopped.
unfoldable pub connected : (now : ℕ) → ErrorCode → List ℕ → Client → Client
unfolding start_connect start_read start_write
connected now success endpoints c = start_write (start_read now c)
connected now operation_aborted endpoints c =
    start_connect now (behind endpoints) (record c { is_open = false })
connected now failure endpoints c =
    start_connect now (behind endpoints) (record c { is_open = false })

unfoldable pub handle_connect : (now : ℕ) → ErrorCode → List ℕ → Client → Client
unfolding connected start_connect
handle_connect now e endpoints c =
    let over = record c { connecting = none } in
    if c.stopped
    then over
    else if not c.is_open
    then start_connect now (behind endpoints) over
    else connected now e endpoints over

-- A heartbeat of the server is no line that is printed.
abbrev pub print_line : Bytes → List Bytes → List Bytes
print_line [] lines = lines
print_line (b ∷ line) lines = lines ++ (b ∷ line) ∷ []

-- `handle_read`, with the bytes that the read added to the buffer.
unfoldable pub handle_read : (now : ℕ) → ErrorCode → Bytes → Client → Client
unfolding stop start_read getline
handle_read now e bytes c =
    let over = record c { is_reading = false } in
    if c.stopped then over else elim e [
      | success ↦
          let parts = getline (c.input_buffer ++ bytes) in
          start_read now
            (record over { input_buffer = parts.1; lines = print_line parts.0 c.lines })
      | _ ↦ stop over
    ]

unfoldable pub handle_write : ErrorCode → Client → Client
unfolding stop
handle_write e c = if c.stopped then record c { heartbeat_timer = silent } else elim e [
  | success ↦ record c { heartbeat_timer = resting }
  | _ ↦ stop (record c { heartbeat_timer = silent })
]

unfoldable pub check_deadline : (now : ℕ) → Client → Client
check_deadline now c =
    if c.stopped
    then record c { is_checking = false }
    else if has_passed now c.deadline
    then record c { is_open = false; deadline = none }
    else c
