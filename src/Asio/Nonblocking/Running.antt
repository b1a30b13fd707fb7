-- ===== src/Asio/Nonblocking/Running.antt =====
-- The runs of a connection: handlers of operations that are under way.
use boost.Prelude.{◌≡◌, ◌≤◌, ℕ, suc, Bytes, length}
use boost.Asio.Nonblocking.{ErrorCode, Connection, connection, start, handle_read, handle_write}

-- The connections that a started one comes to. A read gives at most the 128 bytes of the array, a
-- write takes at most what is shown to it.
pub data Reach : Connection → Type 0 where
  started : Reach (start connection)
  was_readable :
      {c : Connection} {n : ℕ} (ec result : ErrorCode) (bytes : Bytes)
      → Reach c
      → c.reads ≡ suc n
      → length bytes ≤ 128
      → Reach (handle_read ec result bytes (record c { reads = n }))
  was_writable :
      {c : Connection} {n : ℕ} (ec result : ErrorCode) (len : ℕ)
      → Reach c
      → c.writes ≡ suc n
      → len ≤ c.session_impl.size
      → Reach (handle_write ec result len (record c { writes = n }))
