-- ===== src/Asio/CoroutineServer.antt =====
-- doc_searcher/data/input/html/boost_asio/example/http/server4/server.cpp: the server as a coroutine
-- that forks one for each connection.
pub mod Delivery
use boost.Prelude.{◌≡◌, ℕ, Bool, true, false, Option, List, [], ◌∷◌, none, some, Bytes}
use boost.Asio.Request.{Request, no_request}
use boost.Asio.RequestParser.{Tribool, is_true, is_false, indeterminate}
use boost.Asio.Reply.{Reply, bad_request, stock_reply, to_buffers}
use boost.Asio.Connection.{ErrorCode, success, operation_aborted, failure}
use boost.Asio.CoroutineParser.{Cast, Parser, parse}

-- Where the coroutine was left: before its first run, in an accept, in a read, in a write of these
-- buffers, or for good.
pub data Place : Type 0 where
  at_start accepting reading over : Place
  writing : List Bytes → Place

-- `server`. The request stands with its parser.
pub record Coroutine : Type 0 where
  pub place : Place
  pub request_parser : Parser
  pub reply : Reply
  pub is_shut_down : Bool

-- What a server calls: the handler of requests, which writes to a reply, and the casts.
pub record Environment : Type 0 where
  pub request_handler : Request → (content : Bytes) → Reply → Reply
  pub new_reply : Reply
  pub cast : Cast
  pub lexical_cast : ℕ → Bytes

-- `request_.reset(new request)`, and the next read.
abbrev pub new_request : Coroutine → Coroutine
new_request s = record s {
  place = reading;
  request_parser = record s.request_parser { request = no_request; content = [] };
}

module _ (env : Environment) where
  -- The reply is there, and its write starts.
  abbrev pub send : Reply → Coroutine → Coroutine
  send r s = record s { place = writing (to_buffers r); reply = r }

  -- What follows the parser's result.
  unfoldable pub judge : Tribool → Coroutine → Coroutine
  judge indeterminate s = record s { place = reading }
  judge is_true s =
      send (env.request_handler s.request_parser.request s.request_parser.content env.new_reply) s
  judge is_false s = send (stock_reply env.lexical_cast bad_request) s

  -- `operator()`, without an error, from where it was left: the coroutine, and the one it forked.
  unfoldable pub reenter : (bytes : Bytes) → Place → Coroutine → Coroutine × Option Coroutine
  unfolding judge
  reenter bytes at_start s = (record s { place = accepting }, none)
  reenter bytes accepting s = (record s { place = accepting }, some (new_request s))
  reenter bytes reading s =
      let parsed = parse env.cast s.request_parser bytes in
      (judge parsed.result (record s { request_parser = parsed.parser }), none)
  reenter bytes (writing buffers) s = (record s { place = over; is_shut_down = true }, none)
  reenter bytes over s = (s, none)

  -- `operator()`, with the bytes that a read put into the buffer.
  unfoldable pub invoke : ErrorCode → (bytes : Bytes) → Coroutine → Coroutine × Option Coroutine
  unfolding reenter
  invoke success bytes s = reenter bytes s.place s
  invoke operation_aborted bytes s = (record s { place = over }, none)
  invoke failure bytes s = (record s { place = over }, none)
