-- ===== src/Asio/Allocation/Echo.antt =====
-- What a session writes, and which memory its handlers take.
use boost.Prelude.{
  ◌≡◌, ◌≢◌, ◌<◌, refl, ℕ, true, false, Option, List, [], ◌∷◌, ◌++◌, none, some, ltb, Bytes, length,
  drop, take-append_length, append-nil, subst, arith, eq_refl,
}
use boost.Asio.Connection.{ErrorCode, success, operation_aborted, failure}
use boost.Asio.Allocation.{
  Memory, OperatorNew, storage_size, allocate, deallocate, Operation, async_read_some, async_write,
  Session, begin, finish, start, handle_read, handle_write, read_completed, write_completed,
}

-- What was read is what was written and what is being written.
abbrev pub IsEcho : Option (ℕ × Operation) → (reads writes : List Bytes) → Type 0
IsEcho none reads writes = (rest : List Bytes) × (writes ++ rest ≡ reads)
IsEcho (some (p, async_read_some)) reads writes = writes ≡ reads
IsEcho (some (p, async_write bytes)) reads writes = writes ++ bytes ∷ [] ≡ reads

-- The storage is used for the one operation that is under way, and the heap is not used.
abbrev pub IsFrugal : Option (ℕ × Operation) → Memory → Type 0
IsFrugal none m = (m.in_use ≡ false) × (m.heap ≡ [])
IsFrugal (some (p, op)) m = (p ≡ m.address) × (m.in_use ≡ true) × (m.heap ≡ [])

module _ (operator_new : OperatorNew) (handler_size : Operation → ℕ) where
  -- A run of a session, with the bytes of each read and of each write that succeeded.
  pub data Run (s : Session) : (reads writes : List Bytes) → Session → Type 0 where
    started : Run s [] [] (start operator_new handler_size s)
    was_read :
        {reads writes : List Bytes} {t : Session} (p : ℕ) (bytes : Bytes)
        → t.pending ≡ some (p, async_read_some)
        → Run s reads writes t
        → Run s
            (reads ++ bytes ∷ [])
            writes
            (read_completed operator_new handler_size success bytes t)
    was_written :
        {reads writes : List Bytes} {t : Session} (p : ℕ) (bytes : Bytes)
        → t.pending ≡ some (p, async_write bytes)
        → Run s reads writes t
        → Run s reads (writes ++ bytes ∷ []) (write_completed operator_new handler_size success t)
    read_failed :
        {reads writes : List Bytes} {t : Session} (p : ℕ) (e : ErrorCode) (bytes : Bytes)
        → e ≢ success
        → t.pending ≡ some (p, async_read_some)
        → Run s reads writes t
        → Run s reads writes (read_completed operator_new handler_size e bytes t)
    write_failed :
        {reads writes : List Bytes} {t : Session} (p : ℕ) (e : ErrorCode) (bytes : Bytes)
        → e ≢ success
        → t.pending ≡ some (p, async_write bytes)
        → Run s reads writes t
        → Run s reads writes (write_completed operator_new handler_size e t)

  module _ (small : (op : Operation) → handler_size op < storage_size) where
    begin-IsFrugal :
        (op : Operation) (s : Session)
        → IsFrugal none s.allocator_
        → IsFrugal
            (begin operator_new handler_size op s).pending
            (begin operator_new handler_size op s).allocator_
    unfolding begin allocate
    begin-IsFrugal op s h =
        let fits : ltb (handler_size op) storage_size ≡ true = let k = small op in ground arith in
        rw (h.0, fits) (refl, refl, h.1)

    begin-IsEcho :
        (op : Operation) (s : Session) (reads writes : List Bytes)
        → ((p : ℕ) → IsEcho (some (p, op)) reads writes)
        → IsEcho (begin operator_new handler_size op s).pending reads writes
    unfolding begin
    begin-IsEcho op s reads writes h = h (allocate operator_new (handler_size op) s.allocator_).0

    abbrev IsSoundRun : (reads writes : List Bytes) → Session → Type 0
    IsSoundRun reads writes s = IsEcho s.pending reads writes × IsFrugal s.pending s.allocator_

    begin-IsSoundRun :
        (op : Operation) (s : Session) (reads writes : List Bytes)
        → IsFrugal none s.allocator_
        → ((p : ℕ) → IsEcho (some (p, op)) reads writes)
        → IsSoundRun reads writes (begin operator_new handler_size op s)
    begin-IsSoundRun op s reads writes h echo =
        (begin-IsEcho op s reads writes echo, begin-IsFrugal op s h)

    finish-IsFrugal :
        (s : Session) (p : ℕ) (op : Operation)
        → s.pending ≡ some (p, op)
        → IsFrugal s.pending s.allocator_
        → IsFrugal none (finish operator_new handler_size s).allocator_
    unfolding finish deallocate
    finish-IsFrugal s p op e h =
        let freed : IsFrugal (some (p, op)) s.allocator_ =
          subst (λ o. IsFrugal o s.allocator_) e h in
        rw (e, freed.0, eq_refl s.allocator_.address) (refl, freed.2)

    finish-pending :
        (s : Session) (p : ℕ) (op : Operation)
        → s.pending ≡ some (p, op)
        → (finish operator_new handler_size s).pending ≡ none
    unfolding finish
    finish-pending s p op e = rw e refl

    failed_read-IsSoundRun :
        (e : ErrorCode) (n : ℕ) (s : Session) (reads writes : List Bytes)
        → e ≢ success
        → s.pending ≡ none
        → IsFrugal none s.allocator_
        → IsEcho none reads writes
        → IsSoundRun reads writes (handle_read operator_new handler_size e n s)
    unfolding handle_read
    failed_read-IsSoundRun success n s reads writes ne idle h echo = absurd (ne refl)
    failed_read-IsSoundRun operation_aborted n s reads writes ne idle h echo = rw idle (echo, h)
    failed_read-IsSoundRun failure n s reads writes ne idle h echo = rw idle (echo, h)

    failed_write-IsSoundRun :
        (e : ErrorCode) (s : Session) (reads writes : List Bytes)
        → e ≢ success
        → s.pending ≡ none
        → IsFrugal none s.allocator_
        → IsEcho none reads writes
        → IsSoundRun reads writes (handle_write operator_new handler_size e s)
    unfolding handle_write
    failed_write-IsSoundRun success s reads writes ne idle h echo = absurd (ne refl)
    failed_write-IsSoundRun operation_aborted s reads writes ne idle h echo = rw idle (echo, h)
    failed_write-IsSoundRun failure s reads writes ne idle h echo = rw idle (echo, h)

    -- If every handler is smaller than the storage, which is free at the start as the heap is
    -- empty, then in every run of the echo session what it has written, and then what it writes or
    -- gave up at an error, is what it has read, in order; the storage is in use exactly while an
    -- operation is under way, and the heap never.
    pub Run-IsEcho :
        {s t : Session} {reads writes : List Bytes}
        → s.allocator_.in_use ≡ false
        → s.allocator_.heap ≡ []
        → Run s reads writes t
        → IsEcho t.pending reads writes × IsFrugal t.pending t.allocator_
    unfolding start handle_read handle_write
    Run-IsEcho {s} idle empty started =
        begin-IsSoundRun async_read_some s [] [] (idle, empty) (λ p. refl)
    Run-IsEcho {s} idle empty (was_read {reads} {writes} {t} p bytes e run) =
        let (echo, frugal) = Run-IsEcho idle empty run in
        let same : IsEcho (some (p, async_read_some)) reads writes =
          subst (λ o. IsEcho o reads writes) e echo in
        let over = finish operator_new handler_size t in
        begin-IsSoundRun _ (record over { data_ = bytes ++ drop (length bytes) over.data_ })
          (reads ++ bytes ∷ []) writes (finish-IsFrugal t p async_read_some e frugal)
          (λ q. rw (same, take-append_length) refl)
    Run-IsEcho {s} idle empty (was_written {reads} {writes} {t} p bytes e run) =
        let (echo, frugal) = Run-IsEcho idle empty run in
        let same : IsEcho (some (p, async_write bytes)) reads writes =
          subst (λ o. IsEcho o reads writes) e echo in
        begin-IsSoundRun async_read_some (finish operator_new handler_size t) reads
          (writes ++ bytes ∷ []) (finish-IsFrugal t p (async_write bytes) e frugal) (λ q. same)
    Run-IsEcho {s} idle empty (read_failed {reads} {writes} {t} p code bytes ne e run) =
        let (echo, frugal) = Run-IsEcho idle empty run in
        let same : IsEcho (some (p, async_read_some)) reads writes =
          subst (λ o. IsEcho o reads writes) e echo in
        let over = finish operator_new handler_size t in
        failed_read-IsSoundRun code (length bytes)
          (record over { data_ = bytes ++ drop (length bytes) over.data_ }) reads writes ne
          (finish-pending t p async_read_some e) (finish-IsFrugal t p async_read_some e frugal)
          ([], rw append-nil same)
    Run-IsEcho {s} idle empty (write_failed {reads} {writes} {t} p code bytes ne e run) =
        let (echo, frugal) = Run-IsEcho idle empty run in
        let same : IsEcho (some (p, async_write bytes)) reads writes =
          subst (λ o. IsEcho o reads writes) e echo in
        failed_write-IsSoundRun code (finish operator_new handler_size t) reads writes ne
          (finish-pending t p (async_write bytes) e)
          (finish-IsFrugal t p (async_write bytes) e frugal) (bytes ∷ [], same)
