-- ===== src/Asio/Nonblocking/Echo.antt =====
-- What a connection sends, and that it always waits for exactly what the session wants.
use boost.Prelude.{
  ◌+◌, ◌-◌, ◌≡◌, ◌≤◌, refl, sym, ap, ◌∙◌, ℕ, zero, suc, Bool, true, false, [], ◌∷◌, ◌++◌, ltb,
  Bytes, length, take, drop, append-nil, append_assoc, take-append-drop, take-append_length,
  drop-drop, Bool-cases, if_induct, inl, inr, arith,
}
use boost.Asio.Nonblocking.{
  ErrorCode, success, would_block, failure, State, reading, writing, Session, Connection, do_read,
  do_write, shown, start_read, start_operations, close, go_on, start, handle_read, handle_write,
}
use boost.Asio.Nonblocking.Running.{Reach, started, was_readable, was_writable}

-- What the session has read and not written yet.
pub pending : Session → Bytes
pending s = elim s.state [ reading ↦ [] | writing ↦ shown s ]

-- A connection waits for its socket to be readable, or writable, as the session wants it, or it is
-- closed and waits for nothing.
pub data IsWaiting (c : Connection) : Type 0 where
  to_read :
      c.is_open ≡ true
      → c.session_impl.state ≡ reading
      → c.read_in_progress ≡ true
      → c.write_in_progress ≡ false
      → c.reads ≡ 1
      → c.writes ≡ 0
      → IsWaiting c
  to_write :
      c.is_open ≡ true
      → c.session_impl.state ≡ writing
      → c.read_in_progress ≡ false
      → c.write_in_progress ≡ true
      → c.reads ≡ 0
      → c.writes ≡ 1
      → IsWaiting c
  nothing : c.is_open ≡ false → c.reads ≡ 0 → c.writes ≡ 0 → IsWaiting c

pub record IsEchoing (c : Connection) : Type 0 where
  pub echoes : c.received ≡ c.sent ++ pending c.session_impl
  pub waits : IsWaiting c

pending-reading : (s : Session) → s.state ≡ reading → pending s ≡ []
unfolding pending
pending-reading s e = rw e refl

-- An open connection for which nothing is under way.
record IsIdle (c : Connection) : Type 0 where
  opened : c.is_open ≡ true
  no_read : c.read_in_progress ≡ false
  no_write : c.write_in_progress ≡ false
  reads : c.reads ≡ 0
  writes : c.writes ≡ 0

-- To start an operation moves no bytes.
start_operations-keeps :
    (P : Bytes → Bytes → Session → Bool → Type 0) (c : Connection)
    → P c.received c.sent c.session_impl c.is_open
    → let d = start_operations c in P d.received d.sent d.session_impl d.is_open
unfolding start_operations
start_operations-keeps P c p =
    let holds : Connection → Type 0 = λ d. P d.received d.sent d.session_impl d.is_open in
    let first : holds (start_read c) = if_induct holds _ _ _ (λ _. p) (λ _. p) in
    if_induct holds _ _ _ (λ _. first) (λ _. first)

start_operations-IsEchoing :
    (c : Connection) (s : State)
    → c.session_impl.state ≡ s
    → IsIdle c
    → c.received ≡ c.sent ++ pending c.session_impl
    → IsEchoing (start_operations c)
unfolding start_operations
start_operations-IsEchoing c reading s h e = record {
  echoes = start_operations-keeps (λ r t n o. r ≡ t ++ pending n) c e;
  waits =
      to_read (ground (arith, h.opened)) (ground (arith, s)) (ground (arith, s, h.no_read))
        (ground (arith, s, h.no_write)) (ground (arith, s, h.no_read, h.reads))
        (ground (arith, s, h.writes));
}
start_operations-IsEchoing c writing s h e = record {
  echoes = start_operations-keeps (λ r t n o. r ≡ t ++ pending n) c e;
  waits =
      to_write (ground (arith, h.opened)) (ground (arith, s)) (ground (arith, s, h.no_read))
        (ground (arith, s, h.no_write)) (ground (arith, s, h.no_read, h.reads))
        (ground (arith, s, h.writes, h.no_write));
}

go_on-IsEchoing :
    (result : ErrorCode) (c : Connection)
    → IsIdle c
    → c.received ≡ c.sent ++ pending c.session_impl
    → IsEchoing (go_on result c)
unfolding go_on close
go_on-IsEchoing success c h e = start_operations-IsEchoing c c.session_impl.state refl h e
go_on-IsEchoing would_block c h e = start_operations-IsEchoing c c.session_impl.state refl h e
go_on-IsEchoing failure c h e = record { echoes = e; waits = nothing refl h.reads h.writes }

-- A session that reads keeps what it read for the next writes.
pending-do_read :
    (bytes : Bytes) (s : Session) → s.state ≡ reading → pending (do_read bytes s) ≡ bytes
unfolding pending do_read shown
pending-do_read [] s e = rw e refl
pending-do_read (c ∷ bytes) s e =
    let some : ltb 0 (length (c ∷ bytes)) ≡ true = ground arith in
    rw some (take-append_length (c ∷ bytes) (drop (length (c ∷ bytes)) s.stored))

take_nil : (m : ℕ) → take {A = ℕ} m [] ≡ []
take_nil zero = refl
take_nil (suc m) = refl

drop-take : (n m : ℕ) (s : Bytes) → n ≤ m → drop n (take m s) ≡ take (m - n) (drop n s)
drop-take zero m s h = ap (λ k. take k s) (omega arith)
drop-take (suc n) zero s h = absurd (omega arith)
drop-take (suc n) (suc m) [] h = sym (take_nil (suc m - suc n))
drop-take (suc n) (suc m) (c ∷ s) h =
    let less : suc m - suc n ≡ m - n = omega arith in rw less (drop-take n m s (omega arith))

-- What a write takes is no longer pending.
pending_after :
    (len : ℕ) (s : Session)
    → s.state ≡ writing
    → len ≤ s.size
    → pending (do_write len s) ≡ drop len (shown s)
unfolding pending do_write shown
pending_after zero s e h = rw e refl
pending_after (suc n) s e h =
    let some : ltb 0 (suc n) ≡ true = ground arith in
    let left : Bytes = drop (s.offset + suc n) s.stored in
    let rest : drop (suc n) (shown s) ≡ take (s.size - suc n) left =
      drop-take (suc n) s.size (drop s.offset s.stored) h
      ∙ ap (take (s.size - suc n)) (drop-drop (suc n) s.offset s.stored) in
    elim (Bool-cases (ltb 0 (s.size - suc n))) [
      | inl more ↦ rw (some, more) (sym rest)
      | inr all ↦
          let no_more : s.size - suc n ≡ 0 = ground (arith, all) in
          rw (some, all) (sym (rest ∙ ap (λ k. take k left) no_more))
    ]

sent-do_write :
    (len : ℕ) (s : Session) (received sent : Bytes)
    → s.state ≡ writing
    → len ≤ s.size
    → received ≡ sent ++ pending s
    → received ≡ (sent ++ take len (shown s)) ++ pending (do_write len s)
unfolding pending
sent-do_write len s received sent e h all =
    let whole : pending s ≡ shown s = rw e refl in
    all
    ∙ ap (λ r. sent ++ r)
        (whole
          ∙ sym (take-append-drop len (shown s))
          ∙ ap (λ r. take len (shown s) ++ r) (sym (pending_after len s e h)))
    ∙ sym (append_assoc sent (take len (shown s)) (pending (do_write len s)))

-- A read that is under way is the only operation.
read-IsIdle :
    (c : Connection) (n : ℕ)
    → c.reads ≡ suc n
    → IsWaiting c
    → (c.session_impl.state ≡ reading) × IsIdle (record c { reads = n; read_in_progress = false })
read-IsIdle c n some (nothing o r w) = absurd (omega (arith, some, r))
read-IsIdle c n some (to_write o s _ _ r w) = absurd (omega (arith, some, r))
read-IsIdle c n some (to_read o s _ wip r w) = (
  s,
  record { opened = o; no_read = refl; no_write = wip; reads = omega (arith, some, r); writes = w },
)

write-IsIdle :
    (c : Connection) (n : ℕ)
    → c.writes ≡ suc n
    → IsWaiting c
    → (c.session_impl.state ≡ writing) × IsIdle (record c { writes = n; write_in_progress = false })
write-IsIdle c n some (nothing o r w) = absurd (omega (arith, some, w))
write-IsIdle c n some (to_read o s _ _ r w) = absurd (omega (arith, some, w))
write-IsIdle c n some (to_write o s rip _ r w) = (
  s,
  record { opened = o; no_read = rip; no_write = refl; reads = r; writes = omega (arith, some, w) },
)

handle_read-IsEchoing :
    (ec result : ErrorCode) (bytes : Bytes) (c : Connection) (n : ℕ)
    → c.reads ≡ suc n
    → IsEchoing c
    → IsEchoing (handle_read ec result bytes (record c { reads = n }))
unfolding handle_read
handle_read-IsEchoing success result bytes c n some i =
    let (s, idle) = read-IsIdle c n some i.waits in
    let none_left : pending c.session_impl ≡ [] = pending-reading c.session_impl s in
    let even : c.received ≡ c.sent =
      i.echoes ∙ ap (λ r. c.sent ++ r) none_left ∙ append-nil c.sent in
    go_on-IsEchoing result _
      (record {
        opened = idle.opened;
        no_read = refl;
        no_write = idle.no_write;
        reads = idle.reads;
        writes = idle.writes;
      })
      (ap (λ r. r ++ bytes) even
        ∙ ap (λ r. c.sent ++ r) (sym (pending-do_read bytes c.session_impl s)))
handle_read-IsEchoing would_block result bytes c n some i =
    go_on-IsEchoing would_block _ (read-IsIdle c n some i.waits).1 i.echoes
handle_read-IsEchoing failure result bytes c n some i =
    go_on-IsEchoing failure _ (read-IsIdle c n some i.waits).1 i.echoes

handle_write-IsEchoing :
    (ec result : ErrorCode) (len : ℕ) (c : Connection) (n : ℕ)
    → c.writes ≡ suc n
    → len ≤ c.session_impl.size
    → IsEchoing c
    → IsEchoing (handle_write ec result len (record c { writes = n }))
unfolding handle_write
handle_write-IsEchoing success result len c n some fits i =
    let (s, idle) = write-IsIdle c n some i.waits in
    go_on-IsEchoing result _
      (record {
        opened = idle.opened;
        no_read = idle.no_read;
        no_write = refl;
        reads = idle.reads;
        writes = idle.writes;
      })
      (sent-do_write len c.session_impl c.received c.sent s fits i.echoes)
handle_write-IsEchoing would_block result len c n some fits i =
    go_on-IsEchoing would_block _ (write-IsIdle c n some i.waits).1 i.echoes
handle_write-IsEchoing failure result len c n some fits i =
    go_on-IsEchoing failure _ (write-IsIdle c n some i.waits).1 i.echoes

-- In every run of the non-blocking connection, whatever the asynchronous operations and the reads
-- and writes of the session report, what the socket has received is what it has sent and then what
-- the session shows in its array; while the connection is open exactly one operation is under way,
-- the one that the session wants, and when it is closed none.
pub Reach-IsEchoing : {c : Connection} → Reach c → IsEchoing c
unfolding start start_operations pending
Reach-IsEchoing started = record { echoes = refl; waits = to_read refl refl refl refl refl refl }
Reach-IsEchoing (was_readable {c} {n} ec result bytes r some fits) =
    handle_read-IsEchoing ec result bytes c n some (Reach-IsEchoing r)
Reach-IsEchoing (was_writable {c} {n} ec result len r some fits) =
    handle_write-IsEchoing ec result len c n some fits (Reach-IsEchoing r)
