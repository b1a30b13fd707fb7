-- ===== src/Asio/Connection.antt =====
-- doc_searcher/data/input/html/boost_asio/example/http/server/connection.cpp and
-- connection_manager.cpp: one connection of the example HTTP server and the manager that keeps it.
-- An asynchronous operation that was started and has not completed is a field of the connection;
-- its completion is a call of a handler.
pub mod Delivery
pub mod Sets
use boost.Prelude.{
  ℕ, Bool, true, false, not, Option, List, [], ◌∷◌, none, some, ◌==◌, if◌then◌else◌, Bytes,
  filter_b,
}
use boost.Asio.Request.{Request}
use boost.Asio.RequestParser.{State, is_true, is_false, indeterminate, parse}
use boost.Asio.Reply.{Reply, bad_request, to_buffers, stock_reply}
use boost.Asio.RequestHandler.{Environment, handle_request}

-- `boost::system::error_code`, as the handlers tell it apart.
pub data ErrorCode : Type 0 where
  success operation_aborted failure : ErrorCode

-- The operation under way: `async_read_some`, or `async_write` of these buffers.
pub data Pending : Type 0 where
  reading : Pending
  writing : List Bytes → Pending

-- `connection`: the parser's state, the request and the reply, and its socket.
pub record Connection : Type 0 where
  pub parser : State
  pub request : Request
  pub reply : Reply
  pub pending : Option Pending
  pub is_open : Bool
  pub is_shut_down : Bool

-- A connection and the set of its manager, which has pointers, here numbers.
pub record World : Type 0 where
  pub connections : List ℕ
  pub self : Connection

abbrev pub async_read_some : Connection → Connection
async_read_some c = record c { pending = some reading }

abbrev pub async_write : Connection → Reply → Connection
async_write c rep = record c { reply = rep; pending = some (writing (to_buffers rep)) }

-- `connection::stop`: the socket is closed.
abbrev pub close : Connection → Connection
close c = record c { is_open = false }

abbrev pub contains : ℕ → List ℕ → Bool
contains p [] = false
contains p (q ∷ ps) = if p == q then true else contains p ps

abbrev pub insert : ℕ → List ℕ → List ℕ
insert p ps = if contains p ps then ps else p ∷ ps

abbrev pub erase : ℕ → List ℕ → List ℕ
erase p = filter_b (λ q. not (p == q))

-- `connection_manager::start`, which calls `connection::start`.
unfoldable pub start : (this : ℕ) → World → World
start this w = record { connections = insert this w.connections; self = async_read_some w.self }

-- `connection_manager::stop`.
unfoldable pub stop : (this : ℕ) → World → World
stop this w = record { connections = erase this w.connections; self = close w.self }

-- `handle_read`, with the bytes that were read.
unfoldable pub handle_read :
    Environment → (doc_root : Bytes) → (this : ℕ) → ErrorCode → Bytes → World → World
unfolding stop
handle_read env doc_root this success bytes w =
    let parsed = parse w.self.parser w.self.request bytes in
    let c = record w.self {
      parser = parsed.step.state;
      request = parsed.step.request;
      pending = none;
    } in
    elim parsed.step.result [
      | is_true ↦ record w { self = async_write c (handle_request env doc_root c.request c.reply) }
      | is_false ↦ record w { self = async_write c (stock_reply env.lexical_cast bad_request) }
      | indeterminate ↦ record w { self = async_read_some c }
    ]
handle_read env doc_root this operation_aborted bytes w = record w {
  self = record w.self { pending = none };
}
handle_read env doc_root this failure bytes w =
    stop this (record w { self = record w.self { pending = none } })

-- `handle_write`: the connection is shut down where the reply was sent, and stopped but where the
-- operation was aborted.
unfoldable pub handle_write : (this : ℕ) → ErrorCode → World → World
unfolding stop
handle_write this success w =
    stop this (record w { self = record w.self { pending = none; is_shut_down = true } })
handle_write this operation_aborted w = record w { self = record w.self { pending = none } }
handle_write this failure w = stop this (record w { self = record w.self { pending = none } })
