-- ===== src/Asio/Allocation.antt =====
-- doc_searcher/data/input/html/boost_asio/example/allocation/server.cpp: the allocator for handlers
-- and the session that uses it. A pointer is an address, and the global heap is the list of the
-- blocks that are allocated in it.
pub mod Exclusive
pub mod Echo
use boost.Prelude.{
  ◌+◌, ◌≡◌, ℕ, Bool, true, false, not, ◌&&◌, Option, List, [], ◌∷◌, ◌++◌, none, some, ◌==◌, ltb,
  if◌then◌else◌, Bytes, length, take, drop,
}
use boost.Asio.Connection.{ErrorCode, success, operation_aborted, failure, contains, erase}

-- `handler_allocator` and the heap behind it. The storage lies at an address.
pub record Memory : Type 0 where
  pub address : ℕ
  pub in_use : Bool
  pub heap : List ℕ

-- `::operator new`: an address, by the blocks of the heap and the size.
abbrev pub OperatorNew : Type 0
OperatorNew = List ℕ → ℕ → ℕ

-- The size of `storage_`.
abbrev pub storage_size : ℕ
storage_size = 1024

unfoldable pub allocate : OperatorNew → (size : ℕ) → Memory → ℕ × Memory
allocate operator_new size m =
    if not m.in_use && ltb size storage_size
    then (m.address, record m { in_use = true })
    else (let pointer = operator_new m.heap size in (pointer, record m { heap = pointer ∷ m.heap }))

unfoldable pub deallocate : (pointer : ℕ) → Memory → Memory
deallocate pointer m =
    if pointer == m.address
    then record m { in_use = false }
    else record m { heap = erase pointer m.heap }

-- An asynchronous operation of a session.
pub data Operation : Type 0 where
  async_read_some : Operation
  async_write : Bytes → Operation

-- `session`. An operation under way has its handler at a pointer.
pub record Session : Type 0 where
  pub data_ : Bytes
  pub allocator_ : Memory
  pub pending : Option (ℕ × Operation)

module _ (operator_new : OperatorNew) (handler_size : Operation → ℕ) where
  -- An operation begins: memory for its handler is allocated.
  unfoldable pub begin : Operation → Session → Session
  unfolding allocate
  begin op s =
      let allocated = allocate operator_new (handler_size op) s.allocator_ in
      record s { pending = some (allocated.0, op); allocator_ = allocated.1 }

  -- An operation is over: the memory of its handler is free before the handler runs.
  unfoldable pub finish : Session → Session
  unfolding deallocate
  finish s = elim s.pending [
    | none ↦ s
    | some running ↦ record s { pending = none; allocator_ = deallocate running.0 s.allocator_ }
  ]

  unfoldable pub start : Session → Session
  unfolding begin
  start s = begin async_read_some s

  unfoldable pub handle_read : ErrorCode → (bytes_transferred : ℕ) → Session → Session
  unfolding begin
  handle_read success n s = begin (async_write (take n s.data_)) s
  handle_read operation_aborted n s = s
  handle_read failure n s = s

  unfoldable pub handle_write : ErrorCode → Session → Session
  unfolding begin
  handle_write success s = begin async_read_some s
  handle_write operation_aborted s = s
  handle_write failure s = s

  -- The completion of a read that put these bytes at the front of the buffer, and of a write.
  abbrev pub read_completed : ErrorCode → Bytes → Session → Session
  read_completed e bytes s =
      let over = finish s in
      handle_read e (length bytes) (record over { data_ = bytes ++ drop (length bytes) over.data_ })

  abbrev pub write_completed : ErrorCode → Session → Session
  write_completed e s = handle_write e (finish s)
