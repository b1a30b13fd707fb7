-- ===== src/Asio/IoServicePool/Server.antt =====
-- doc_searcher/data/input/html/boost_asio/example/http/server2/server.cpp: the server that spreads
-- its connections over a pool of io_services. A connection is the io_service that it was made with.
use boost.Prelude.{ℕ, Option, none, some, List, [], ◌∷◌, ◌++◌}
use boost.Asio.Connection.{ErrorCode, success, operation_aborted, failure}
use boost.Asio.IoServicePool.{IoService, IoServicePool, io_service_pool, get_io_service, stop_all}

pub record Server : Type 0 where
  pub io_service_pool_ : IoServicePool
  pub signals_ : Option IoService
  pub acceptor_ : Option IoService
  pub new_connection_ : Option IoService
  pub started : List (Option IoService)

unfoldable pub start_accept : Server → Server
start_accept s =
    let (io_service, pool) = get_io_service s.io_service_pool_ in
    record s { io_service_pool_ = pool; new_connection_ = io_service }

-- The constructor, or none where that of the pool throws.
unfoldable pub make_server : (io_service_pool_size : ℕ) → Option Server
unfolding start_accept
make_server io_service_pool_size = elim (io_service_pool io_service_pool_size) [
  | none ↦ none
  | some pool ↦
      let (signals, behind_signals) = get_io_service pool in
      let (acceptor, behind_acceptor) = get_io_service behind_signals in
      some (
        start_accept (record {
          io_service_pool_ = behind_acceptor;
          signals_ = signals;
          acceptor_ = acceptor;
          new_connection_ = none;
          started = [];
        }))
]

unfoldable pub handle_accept : ErrorCode → Server → Server
unfolding start_accept
handle_accept success s = start_accept (record s { started = s.started ++ s.new_connection_ ∷ [] })
handle_accept operation_aborted s = start_accept s
handle_accept failure s = start_accept s

unfoldable pub handle_stop : Server → Server
handle_stop s = record s { io_service_pool_ = stop_all s.io_service_pool_ }
