-- ===== src/Asio/HttpServer.antt =====
-- doc_searcher/data/input/html/boost_asio/example/http/server/server.cpp, and `stop_all` of
-- connection_manager.cpp: the server with all its connections. A pointer to a connection is a
-- number, in the order of creation.
pub mod Tidy
pub mod Stopping
use boost.Prelude.{
  ◌+◌, ◌≡◌, ℕ, Bool, true, false, not, Option, List, [], ◌∷◌, none, some, ◌==◌, if◌then◌else◌,
  Bytes,
}
use boost.Asio.Request.{no_request}
use boost.Asio.RequestParser.{method_start}
use boost.Asio.Reply.{Reply}
use boost.Asio.RequestHandler.{Environment}
use boost.Asio.Connection.{
  ErrorCode, success, operation_aborted, failure, reading, writing, Connection, World, close, start,
  handle_read, handle_write,
}

-- The acceptor, whether an accept is under way, the manager's set, the connections that were made,
-- and `new_connection_`.
pub record Server : Type 0 where
  pub is_open : Bool
  pub is_accepting : Bool
  pub connections : List ℕ
  pub objects : ℕ → Connection
  pub created : ℕ
  pub new_connection : ℕ

abbrev pub put : ℕ → Connection → (ℕ → Connection) → ℕ → Connection
put i c objects = λ j. if j == i then c else objects j

-- A call of a connection's method, which may call the manager.
abbrev pub call : (World → World) → ℕ → Server → Server
call method i s =
    let w = method (record { connections = s.connections; self = s.objects i }) in
    record s { connections = w.connections; objects = put i w.self s.objects }

-- `connection::connection`; the reply is what its members are initialised with.
abbrev pub make_connection : (blank : Reply) → Connection
make_connection blank = record {
  parser = method_start;
  request = no_request;
  reply = blank;
  pending = none;
  is_open = true;
  is_shut_down = false;
}

unfoldable pub start_accept : (blank : Reply) → Server → Server
start_accept blank s = record s {
  objects = put s.created (make_connection blank) s.objects;
  new_connection = s.created;
  created = s.created + 1;
  is_accepting = true;
}

-- The new connection is started where it was accepted.
abbrev pub start_new : ErrorCode → Server → Server
start_new success s = call (start s.new_connection) s.new_connection s
start_new operation_aborted s = s
start_new failure s = s

unfoldable pub handle_accept : (blank : Reply) → ErrorCode → Server → Server
unfolding start_accept
handle_accept blank e s =
    if not s.is_open then record s { is_accepting = false } else start_accept blank (start_new e s)

-- The loop of `connection_manager::stop_all`.
unfoldable pub stop_each : List ℕ → (ℕ → Connection) → ℕ → Connection
stop_each [] objects = objects
stop_each (i ∷ is) objects = stop_each is (put i (close (objects i)) objects)

unfoldable pub stop_all : Server → Server
unfolding stop_each
stop_all s = record s { connections = []; objects = stop_each s.connections s.objects }

unfoldable pub handle_stop : Server → Server
unfolding stop_all
handle_stop s = stop_all (record s { is_open = false })

-- The constructor, behind the opening of the acceptor.
unfoldable pub make_server : (blank : Reply) → Server
unfolding start_accept
make_server blank = start_accept blank (record {
  is_open = true;
  is_accepting = false;
  connections = [];
  objects = λ i. make_connection blank;
  created = 0;
  new_connection = 0;
})

-- What the loop of the io_service may run next: the handler of an operation that is under way, with
-- any outcome, or that of a signal.
pub data Step (env : Environment) (doc_root : Bytes) (blank : Reply) (s : Server)
    : Server → Type 0 where
  accepted :
      (e : ErrorCode) → s.is_accepting ≡ true → Step env doc_root blank s (handle_accept blank e s)
  was_read :
      (i : ℕ) (e : ErrorCode) (bytes : Bytes)
      → (s.objects i).pending ≡ some reading
      → Step env doc_root blank s (call (handle_read env doc_root i e bytes) i s)
  was_written :
      (i : ℕ) (e : ErrorCode) (buffers : List Bytes)
      → (s.objects i).pending ≡ some (writing buffers)
      → Step env doc_root blank s (call (handle_write i e) i s)
  signalled : Step env doc_root blank s (handle_stop s)

pub data Reach (env : Environment) (doc_root : Bytes) (blank : Reply) (s : Server)
    : Server → Type 0 where
  here : Reach env doc_root blank s s
  next :
      {t u : Server}
      → Reach env doc_root blank s t
      → Step env doc_root blank t u
      → Reach env doc_root blank s u
