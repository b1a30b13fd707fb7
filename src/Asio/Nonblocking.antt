-- ===== src/Asio/Nonblocking.antt =====
-- doc_searcher/data/input/html/boost_asio/example/nonblocking/third_party_lib.cpp: the session that
-- is told when its socket is ready, and the connection that tells it. `data` is the array that a
-- read fills from the front; `write_buffer_` is a place in it and a size. The socket is what it has
-- received and sent, and how many asynchronous operations of either kind are under way.
pub mod Running
pub mod Echo
use boost.Prelude.{
  ◌+◌, ◌-◌, ℕ, Bool, true, false, not, ◌&&◌, [], ◌++◌, ltb, if◌then◌else◌, Bytes, length, take,
  drop,
}

-- What an operation reports.
pub data ErrorCode : Type 0 where
  success would_block failure : ErrorCode

pub data State : Type 0 where
  reading writing : State

pub record Session : Type 0 where
  pub state : State
  pub stored : Bytes
  pub offset : ℕ
  pub size : ℕ

pub record Connection : Type 0 where
  pub session_impl : Session
  pub read_in_progress : Bool
  pub write_in_progress : Bool
  pub is_open : Bool
  pub reads : ℕ
  pub writes : ℕ
  pub received : Bytes
  pub sent : Bytes

abbrev pub want_read : Session → Bool
want_read s = elim s.state [ reading ↦ true | writing ↦ false ]

abbrev pub want_write : Session → Bool
want_write s = elim s.state [ reading ↦ false | writing ↦ true ]

-- `do_read`, with the bytes that `read_some` gave.
unfoldable pub do_read : Bytes → Session → Session
do_read bytes s =
    if ltb 0 (length bytes)
    then record s {
      state = writing;
      stored = bytes ++ drop (length bytes) s.stored;
      offset = 0;
      size = length bytes;
    }
    else s

-- `do_write`, with the number of bytes that `write_some` took.
unfoldable pub do_write : ℕ → Session → Session
do_write len s =
    if ltb 0 len
    then record s {
      state = if ltb 0 (s.size - len) then writing else reading;
      offset = s.offset + len;
      size = s.size - len;
    }
    else s

-- The bytes that `write_buffer_` shows.
unfoldable pub shown : Session → Bytes
shown s = take s.size (drop s.offset s.stored)

abbrev pub start_read : Connection → Connection
start_read c =
    if want_read c.session_impl && not c.read_in_progress
    then record c { read_in_progress = true; reads = c.reads + 1 }
    else c

abbrev pub start_write : Connection → Connection
start_write c =
    if want_write c.session_impl && not c.write_in_progress
    then record c { write_in_progress = true; writes = c.writes + 1 }
    else c

unfoldable pub start_operations : Connection → Connection
start_operations c = start_write (start_read c)

unfoldable pub close : Connection → Connection
close c = record c { is_open = false }

-- The end of both handlers.
unfoldable pub go_on : ErrorCode → Connection → Connection
unfolding start_operations close
go_on success c = start_operations c
go_on would_block c = start_operations c
go_on failure c = close c

-- `handle_read`, with what `read_some` reports and gives where it is called.
unfoldable pub handle_read : ErrorCode → ErrorCode → Bytes → Connection → Connection
unfolding do_read go_on
handle_read ec result bytes c =
    let ended = record c { read_in_progress = false } in
    elim ec [
      | success ↦ go_on result (record ended {
        session_impl = do_read bytes c.session_impl;
        received = c.received ++ bytes;
      })
      | would_block ↦ go_on would_block ended
      | failure ↦ go_on failure ended
    ]

-- `handle_write`, with what `write_some` reports and how many bytes it takes.
unfoldable pub handle_write : ErrorCode → ErrorCode → ℕ → Connection → Connection
unfolding do_write go_on shown
handle_write ec result len c =
    let ended = record c { write_in_progress = false } in
    elim ec [
      | success ↦ go_on result (record ended {
        session_impl = do_write len c.session_impl;
        sent = c.sent ++ take len (shown c.session_impl);
      })
      | would_block ↦ go_on would_block ended
      | failure ↦ go_on failure ended
    ]

-- A connection that was accepted.
abbrev pub connection : Connection
connection = record {
  session_impl = record { state = reading; stored = []; offset = 0; size = 0 };
  read_in_progress = false;
  write_in_progress = false;
  is_open = true;
  reads = 0;
  writes = 0;
  received = [];
  sent = [];
}

unfoldable pub start : Connection → Connection
unfolding start_operations
start c = start_operations c
