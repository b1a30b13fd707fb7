-- ===== src/Asio/Timeouts.antt =====
-- doc_searcher/data/input/html/boost_asio/example/timeouts/server.cpp: the sessions of the server
-- with deadlines, and their channel. A pointer to a session is a number, and time counts seconds.
-- An asynchronous operation that is under way is a field of its session. To move the expiry of a
-- timer, or to cancel it, wakes the handler that waits on it.
pub mod Waking
pub mod Reaching
pub mod Alive
pub mod Reading
pub mod Writing
pub mod Running
use boost.Prelude.{
  ◌+◌, ◌≡◌, ◌≢◌, ℕ, Bool, true, false, not, Option, List, [], ◌∷◌, ◌++◌, none, some, ◌==◌, leb,
  if◌then◌else◌, Bytes,
}
use boost.Asio.Connection.{ErrorCode, success, operation_aborted, failure, insert, erase}

-- The output actor: it has no operation under way, waits on `non_empty_output_queue_`, is about to
-- run `await_output`, or writes these bytes.
pub data Output : Type 0 where
  idle waiting woken : Output
  writing : Bytes → Output

-- `tcp_session`. An expiry of `none` is `pos_infin`; that of `non_empty_output_queue_` is either
-- `neg_infin`, where it is signalled, or `pos_infin`.
pub record Session : Type 0 where
  pub is_open : Bool
  pub input_buffer : Bytes
  pub is_reading : Bool
  pub input_deadline : Option ℕ
  pub is_checking_input : Bool
  pub output_queue : List Bytes
  pub is_signalled : Bool
  pub output : Output
  pub output_deadline : Option ℕ
  pub is_checking_output : Bool

-- `channel`, the sessions that its pointers lead to, and what the `udp_broadcaster` has sent, which
-- is subscribed from the start and never leaves.
pub record Channel : Type 0 where
  pub subscribers : List ℕ
  pub sessions : ℕ → Session
  pub broadcasts : List Bytes

-- A session as its constructor and the accept of its socket leave it.
abbrev pub make_session : Session
make_session = record {
  is_open = true;
  input_buffer = [];
  is_reading = false;
  input_deadline = none;
  is_checking_input = false;
  output_queue = [];
  is_signalled = false;
  output = idle;
  output_deadline = none;
  is_checking_output = false;
}

abbrev pub wake : Output → Output
wake waiting = woken
wake idle = idle
wake woken = woken
wake (writing bytes) = writing bytes

-- A message for the queue, which signals that it is not empty.
abbrev pub enqueue : Bytes → Session → Session
enqueue msg s = record s {
  output_queue = s.output_queue ++ msg ∷ [];
  is_signalled = true;
  output = wake s.output;
}

-- `tcp_session::deliver`.
unfoldable pub deliver : Bytes → Session → Session
deliver msg s = enqueue (msg ++ b'\n' ∷ []) s

abbrev pub put : ℕ → (Session → Session) → Channel → Channel
put p f ch = record ch { sessions = λ j. if j == p then f (ch.sessions j) else ch.sessions j }

-- The loop of `channel::deliver` over the sessions.
unfoldable pub deliver_each : Bytes → List ℕ → (ℕ → Session) → ℕ → Session
deliver_each msg [] sessions = sessions
deliver_each msg (p ∷ ps) sessions =
    deliver_each msg ps (λ j. if j == p then deliver msg (sessions j) else sessions j)

unfoldable pub deliver_channel : Bytes → Channel → Channel
unfolding deliver_each
deliver_channel msg ch = record ch {
  sessions = deliver_each msg ch.subscribers ch.sessions;
  broadcasts = ch.broadcasts ++ msg ∷ [];
}

abbrev pub join : ℕ → Channel → Channel
join p ch = record ch { subscribers = insert p ch.subscribers }

abbrev pub leave : ℕ → Channel → Channel
leave p ch = record ch { subscribers = erase p ch.subscribers }

-- What `stop` does to its own session: `socket_.close` and three times `cancel`.
unfoldable pub closed : Session → Session
closed s = record s { is_open = false; output = wake s.output }

unfoldable pub stop : ℕ → Channel → Channel
unfolding closed
stop p ch = put p closed (leave p ch)

unfoldable pub start_read : (now : ℕ) → Session → Session
start_read now s = record s { input_deadline = some (now + 30); is_reading = true }

unfoldable pub start_write : (now : ℕ) → Bytes → Session → Session
start_write now msg s = record s { output_deadline = some (now + 30); output = writing msg }

-- `await_output` of an open session, by its queue.
abbrev pub await_queue : (now : ℕ) → List Bytes → Session → Session
await_queue now [] s = record s { is_signalled = false; output = waiting }
await_queue now (msg ∷ _) s = start_write now msg s

unfoldable pub await_output : (now : ℕ) → Session → Session
unfolding start_write
await_output now s =
    if not s.is_open then record s { output = idle } else await_queue now s.output_queue s

-- The bytes before the first newline, and those behind it.
unfoldable pub getline : Bytes → Bytes × Bytes
getline [] = ([], [])
getline (c ∷ s) = let later = getline s in if c == b'\n' then ([], s) else (c ∷ later.0, later.1)

abbrev pub is_empty : List Bytes → Bool
is_empty [] = true
is_empty (_ ∷ _) = false

-- A heartbeat is sent back where nothing else is.
abbrev pub heartbeat : Session → Session
heartbeat s = if is_empty s.output_queue then enqueue (b'\n' ∷ []) s else s

-- A message that was received.
abbrev pub receive : ℕ → Bytes → Channel → Channel
receive p [] ch = put p heartbeat ch
receive p (c ∷ msg) ch = deliver_channel (c ∷ msg) ch

-- `handle_read`, with the bytes that the read added to the buffer.
unfoldable pub handle_read : (now : ℕ) → ℕ → ErrorCode → Bytes → Channel → Channel
unfolding deliver_channel stop start_read getline
handle_read now p e bytes ch =
    let s = ch.sessions p in
    if not s.is_open then put p (λ s. record s { is_reading = false }) ch else elim e [
      | success ↦
          let parts = getline (s.input_buffer ++ bytes) in
          put p (start_read now) (
            receive p parts.0
              (put p (λ s. record s { is_reading = false; input_buffer = parts.1 }) ch))
      | _ ↦ stop p (put p (λ s. record s { is_reading = false }) ch)
    ]

abbrev pub pop_front : List Bytes → List Bytes
pop_front [] = []
pop_front (_ ∷ msgs) = msgs

unfoldable pub handle_write : (now : ℕ) → ℕ → ErrorCode → Channel → Channel
unfolding await_output stop
handle_write now p e ch =
    let s = ch.sessions p in
    if not s.is_open then put p (λ s. record s { output = idle }) ch else elim e [
      | success ↦
          put p (await_output now)
            (put p (λ s. record s { output_queue = pop_front s.output_queue; output = idle }) ch)
      | _ ↦ stop p (put p (λ s. record s { output = idle }) ch)
    ]

abbrev pub has_passed : (now : ℕ) → Option ℕ → Bool
has_passed now none = false
has_passed now (some expiry) = leb expiry now

-- `check_deadline` of the input and of the output.
unfoldable pub check_input : (now : ℕ) → ℕ → Channel → Channel
unfolding stop
check_input now p ch =
    let s = ch.sessions p in
    if not s.is_open
    then put p (λ s. record s { is_checking_input = false }) ch
    else if has_passed now s.input_deadline
    then stop p (put p (λ s. record s { is_checking_input = false }) ch)
    else ch

unfoldable pub check_output : (now : ℕ) → ℕ → Channel → Channel
unfolding stop
check_output now p ch =
    let s = ch.sessions p in
    if not s.is_open
    then put p (λ s. record s { is_checking_output = false }) ch
    else if has_passed now s.output_deadline
    then stop p (put p (λ s. record s { is_checking_output = false }) ch)
    else ch

-- `tcp_session::start`.
unfoldable pub start : (now : ℕ) → ℕ → Channel → Channel
unfolding start_read await_output
start now p ch =
    put p (λ s. record s { is_checking_output = true })
      (put p (await_output now)
        (put p (λ s. record s { is_checking_input = true }) (put p (start_read now) (join p ch))))
