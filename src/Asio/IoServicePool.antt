-- ===== src/Asio/IoServicePool.antt =====
-- doc_searcher/data/input/html/boost_asio/example/http/server2/io_service_pool.cpp: the pool of
-- io_services. An io_service is its place among those that were made, and whether it was stopped:
-- as it has work to do, its own `run` returns exactly when it was stopped.
pub mod RoundRobin
pub mod Server
pub mod Spreading
use boost.Prelude.{
  ◌+◌, ◌≡◌, ℕ, zero, suc, Bool, true, false, ◌&&◌, Option, List, [], ◌∷◌, ◌++◌, none, some, ◌==◌,
  if◌then◌else◌, length, map, get_elem?,
}

pub record IoService : Type 0 where
  pub id : ℕ
  pub is_stopped : Bool

pub record IoServicePool : Type 0 where
  pub io_services_ : List IoService
  pub next_io_service_ : ℕ

-- The loop of the constructor, which makes so many io_services behind those that are there.
unfoldable pub make_services : (count : ℕ) → List IoService → List IoService
make_services zero made = made
make_services (suc count) made =
    make_services count (made ++ record { id = length made; is_stopped = false } ∷ [])

-- The constructor, or none where it throws.
unfoldable pub io_service_pool : (pool_size : ℕ) → Option IoServicePool
unfolding make_services
io_service_pool pool_size =
    if pool_size == 0
    then none
    else some (record { io_services_ = make_services pool_size []; next_io_service_ = 0 })

abbrev pub stopped : IoService → IoService
stopped s = record s { is_stopped = true }

unfoldable pub stop_all : IoServicePool → IoServicePool
stop_all pool = record pool { io_services_ = map stopped pool.io_services_ }

-- The io_service of a call, or none where the index lies outside the vector, and the pool.
unfoldable pub get_io_service : IoServicePool → Option IoService × IoServicePool
get_io_service pool =
    let next = pool.next_io_service_ + 1 in
    (
      get_elem? pool.io_services_ pool.next_io_service_,
      record pool { next_io_service_ = if next == length pool.io_services_ then 0 else next },
    )

-- `run`: the io_services that its threads run, and whether all of these have exited, which `run`
-- waits for.
unfoldable pub run : IoServicePool → List IoService
run pool = pool.io_services_

unfoldable pub has_joined : List IoService → Bool
has_joined [] = true
has_joined (s ∷ threads) = s.is_stopped && has_joined threads
