-- ===== src/Asio/IoServicePool/Spreading.antt =====
-- How the server spreads its connections over the pool.
use boost.Prelude.{
  ◌%◌, ◌≡◌, ◌<◌, refl, sym, ap, ◌∙◌, ℕ, suc, true, false, Option, none, some, List, [], ◌∷◌, ◌++◌,
  map, append-nil, append_assoc,
}
use boost.Asio.Connection.{ErrorCode, success, operation_aborted, failure}
use boost.Asio.IoServicePool.{IoService, get_io_service, stopped, stop_all, run, has_joined}
use boost.Asio.IoServicePool.RoundRobin.{called, new_pool, called-service, io_service_pool-new_pool}
use boost.Asio.IoServicePool.Server.{Server, make_server, start_accept, handle_accept, handle_stop}

-- The server behind accepts with these outcomes.
pub accept_all : List ErrorCode → Server → Server
accept_all [] s = s
accept_all (e ∷ es) s = accept_all es (handle_accept e s)

-- The numbers of the accepts that succeeded, counted from this one.
pub accepted : ℕ → List ErrorCode → List ℕ
accepted k [] = []
accepted k (success ∷ es) = k ∷ accepted (suc k) es
accepted k (operation_aborted ∷ es) = accepted (suc k) es
accepted k (failure ∷ es) = accepted (suc k) es

-- The io_service of the call with this number.
abbrev pub service_of : ℕ → ℕ → Option IoService
service_of n k = some (record { id = k % n; is_stopped = false })

-- The server waits with the connection of this call.
record IsAt (n k : ℕ) (s : Server) : Type 0 where
  pool : s.io_service_pool_ ≡ called (suc k) (new_pool n)
  waiting : s.new_connection_ ≡ service_of n k

start_accept-IsAt :
    (n k : ℕ) (s : Server)
    → 0 < n
    → s.io_service_pool_ ≡ called k (new_pool n)
    → IsAt n k (start_accept s)
unfolding start_accept
start_accept-IsAt n k s pos e = record {
  pool = ap (λ p. (get_io_service p).1) e;
  waiting = ap (λ p. (get_io_service p).0) e ∙ called-service n k pos;
}

accept_all-started :
    (n k : ℕ) (es : List ErrorCode) (s : Server)
    → 0 < n
    → IsAt n k s
    → (accept_all es s).started ≡ s.started ++ map (service_of n) (accepted k es)
unfolding accept_all accepted handle_accept start_accept
accept_all-started n k [] s pos h = sym (append-nil s.started)
accept_all-started n k (success ∷ es) s pos h =
    let taken = record s { started = s.started ++ s.new_connection_ ∷ [] } in
    accept_all-started n (suc k) es (start_accept taken) pos
      (start_accept-IsAt n (suc k) taken pos h.pool)
    ∙ append_assoc s.started (s.new_connection_ ∷ []) (map (service_of n) (accepted (suc k) es))
    ∙ ap (λ c. s.started ++ c ∷ map (service_of n) (accepted (suc k) es)) h.waiting
accept_all-started n k (operation_aborted ∷ es) s pos h =
    accept_all-started n (suc k) es (start_accept s) pos (start_accept-IsAt n (suc k) s pos h.pool)
accept_all-started n k (failure ∷ es) s pos h =
    accept_all-started n (suc k) es (start_accept s) pos (start_accept-IsAt n (suc k) s pos h.pool)

has_joined-stopped : (services : List IoService) → has_joined (map stopped services) ≡ true
unfolding has_joined
has_joined-stopped [] = refl
has_joined-stopped (s ∷ services) = has_joined-stopped services

-- A server over a pool of a positive size is made, and whatever its accepts come to, it starts
-- exactly the connections of those that succeed, in order, each on the io_service whose place is
-- the number of the accept, counted from two, modulo the size of the pool; and when it is stopped,
-- all threads of the pool exit.
pub make_server-accept_all :
    (n : ℕ) (es : List ErrorCode)
    → 0 < n
    → (s : Server) × (make_server n ≡ some s)
      × ((accept_all es s).started ≡ map (service_of n) (accepted 2 es))
      × (has_joined (run (handle_stop (accept_all es s)).io_service_pool_) ≡ true)
unfolding make_server handle_stop stop_all run
make_server-accept_all n es pos =
    let two = called 2 (new_pool n) in
    let first : Server = record {
      io_service_pool_ = two;
      signals_ = (get_io_service (new_pool n)).0;
      acceptor_ = (get_io_service (called 1 (new_pool n))).0;
      new_connection_ = none;
      started = [];
    } in
    let s = start_accept first in
    (
      s,
      rw (io_service_pool-new_pool n pos, make_server) refl,
      accept_all-started n 2 es s pos (start_accept-IsAt n 2 first pos refl),
      has_joined-stopped (accept_all es s).io_service_pool_.io_services_,
    )
