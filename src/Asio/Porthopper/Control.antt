-- ===== src/Asio/Porthopper/Control.antt =====
-- doc_searcher/data/input/html/boost_asio/example/porthopper/server.cpp: the control connections. A
-- pointer to a socket is a number, and time counts seconds.
use boost.Prelude.{◌+◌, ℕ, Option, ◌==◌, if◌then◌else◌, Bytes}
use boost.Asio.Connection.{ErrorCode, success, operation_aborted, failure}
use boost.Asio.Stream.{Hex}
use boost.Asio.Porthopper.{Server, handle_control_request_timer}

-- What is under way on a connection: nothing, the read of a request, or the wait of a request that
-- was read, until its time.
pub data Control : Type 0 where
  idle reading : Control
  delayed : (request : Bytes) (until : ℕ) → Control

-- The server, its connections, and the socket of the accept that is under way.
pub record World : Type 0 where
  pub server : Server
  pub controls : ℕ → Control
  pub new_socket : ℕ

abbrev pub put : ℕ → Control → World → World
put p control w = record w { controls = λ j. if j == p then control else w.controls j }

unfoldable pub handle_accept : ErrorCode → World → World
handle_accept success w = record (put w.new_socket reading w) { new_socket = w.new_socket + 1 }
handle_accept operation_aborted w = record w { new_socket = w.new_socket + 1 }
handle_accept failure w = record w { new_socket = w.new_socket + 1 }

unfoldable pub handle_control_request : (now : ℕ) → ErrorCode → Bytes → ℕ → World → World
handle_control_request now success request p w = put p (delayed request (now + 2)) w
handle_control_request now operation_aborted request p w = put p idle w
handle_control_request now failure request p w = put p idle w

-- `handle_control_request_timer`, with its connection.
unfoldable pub handle_delay : Hex → (remote : Option ℕ) → (request : Bytes) → ℕ → World → World
handle_delay hex remote request p w =
    put p reading (record w { server = handle_control_request_timer hex remote request w.server })
