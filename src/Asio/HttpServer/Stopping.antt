-- ===== src/Asio/HttpServer/Stopping.antt =====
-- The manager's set over all runs of the server, and what a stop leaves.
use boost.Prelude.{◌≡◌, ◌≢◌, refl, ℕ, false, not, [], none, ◌==◌, Bytes, Bool-cases, inl, inr}
use boost.Asio.Reply.{Reply}
use boost.Asio.RequestHandler.{Environment}
use boost.Asio.Connection.{
  ErrorCode, success, operation_aborted, failure, start, handle_read, handle_write, contains,
}
use boost.Asio.HttpServer.{
  Server, start_new, start_accept, handle_accept, stop_all, handle_stop, make_server, Step,
  accepted, was_read, was_written, signalled, Reach, here, next,
}
use boost.Asio.HttpServer.Tidy.{
  call-IsAccounted, start-IsTidy, handle_write-IsTidy, either-IsAccounted, stop_each_lem,
  handle_read-IsTidy, handle_read-nil, handle_write-nil, IsAccounted, world,
}

module _ (env : Environment) (doc_root : Bytes) where
  module _ (blank : Reply) where
    start_accept-IsAccounted : (s : Server) → IsAccounted s → IsAccounted (start_accept blank s)
    unfolding start_accept
    start_accept-IsAccounted s h j = elim (Bool-cases (j == s.created)) [
      | inl e ↦ rw e (λ p o. absurd (p refl))
      | inr e ↦ rw e (h j)
    ]

    make_server-IsAccounted : IsAccounted (make_server blank)
    unfolding make_server start_accept
    make_server-IsAccounted j = elim (Bool-cases (j == 0)) [
      | inl e ↦ rw e (λ p o. absurd (p refl))
      | inr e ↦ rw e (λ p o. absurd (p refl))
    ]

    start_new-IsAccounted :
        (e : ErrorCode) (s : Server) → IsAccounted s → IsAccounted (start_new e s)
    start_new-IsAccounted success s h =
        call-IsAccounted (start s.new_connection) s.new_connection s
          (start-IsTidy s.new_connection (world s.new_connection s)) h
    start_new-IsAccounted operation_aborted s h = h
    start_new-IsAccounted failure s h = h

    handle_accept-IsAccounted :
        (e : ErrorCode) (s : Server) → IsAccounted s → IsAccounted (handle_accept blank e s)
    unfolding handle_accept
    handle_accept-IsAccounted e s h =
        either-IsAccounted (not s.is_open) _ _ h
          (start_accept-IsAccounted (start_new e s) (start_new-IsAccounted e s h))

    handle_stop-IsAccounted : (s : Server) → IsAccounted s → IsAccounted (handle_stop s)
    unfolding handle_stop stop_all
    handle_stop-IsAccounted s h j =
        rw (stop_each_lem s.connections s.objects j) (elim (Bool-cases (contains j s.connections)) [
          | inl e ↦ rw e (λ p o. cc)
          | inr e ↦ rw e (λ p o. absurd (cc (h j p o)))
        ])

    Step-IsAccounted : {s t : Server} → Step env doc_root blank s t → IsAccounted s → IsAccounted t
    Step-IsAccounted {s} (accepted e _) h = handle_accept-IsAccounted e s h
    Step-IsAccounted {s} (was_read i e bytes busy) h =
        call-IsAccounted (handle_read env doc_root i e bytes) i s
          (handle_read-IsTidy env doc_root i e bytes (world i s) (λ idle. cc)) h
    Step-IsAccounted {s} (was_written i e buffers busy) h =
        call-IsAccounted (handle_write i e) i s (handle_write-IsTidy i e (world i s)) h
    Step-IsAccounted {s} signalled h = handle_stop-IsAccounted s h

    Reach-IsAccounted :
        {s t : Server} → IsAccounted s → Reach env doc_root blank s t → IsAccounted t
    Reach-IsAccounted h here = h
    Reach-IsAccounted h (next r st) = Step-IsAccounted st (Reach-IsAccounted h r)

    -- In every run of the example HTTP server, with accepts, reads, writes and signals in any order
    -- and with any outcome, each connection that is open and has an operation under way is in the
    -- set of the connection manager.
    pub make_server-Reach :
        {s : Server} → Reach env doc_root blank (make_server blank) s → IsAccounted s
    make_server-Reach r = Reach-IsAccounted make_server-IsAccounted r

    -- The acceptor is closed and no connection is managed.
    abbrev IsStopped : Server → Type 0
    IsStopped s = (s.is_open ≡ false) × (s.connections ≡ [])

    Step-IsStopped : {s t : Server} → Step env doc_root blank s t → IsStopped s → IsStopped t
    unfolding handle_accept handle_stop stop_all
    Step-IsStopped {s} (accepted e _) h = rw (h.0) (refl, h.1)
    Step-IsStopped {s} (was_read i e bytes busy) h =
        (h.0, handle_read-nil env doc_root i e bytes (world i s) h.1)
    Step-IsStopped {s} (was_written i e buffers busy) h =
        (h.0, handle_write-nil env doc_root i e (world i s) h.1)
    Step-IsStopped {s} signalled h = (refl, refl)

    Reach-IsStopped : {s t : Server} → IsStopped s → Reach env doc_root blank s t → IsStopped t
    Reach-IsStopped h here = h
    Reach-IsStopped h (next r st) = Step-IsStopped st (Reach-IsStopped h r)

    -- After a signal has stopped a server that any run of it led to, and whatever completes later,
    -- the acceptor is closed, the manager's set is empty, and every connection that has an
    -- operation under way is closed.
    pub handle_stop-Reach :
        {s t : Server}
        → Reach env doc_root blank (make_server blank) s
        → Reach env doc_root blank (handle_stop s) t
        → (t.is_open ≡ false)
          × (t.connections ≡ [])
          × ((i : ℕ) → (t.objects i).pending ≢ none → (t.objects i).is_open ≡ false)
    unfolding handle_stop stop_all
    handle_stop-Reach {s} {t} r after =
        let stopped = Reach-IsStopped (refl, refl) after in
        let accounted = Reach-IsAccounted (handle_stop-IsAccounted s (make_server-Reach r)) after in
        (
          stopped.0,
          stopped.1,
          λ i p. elim (Bool-cases (t.objects i).is_open) [
            | inl o ↦ absurd (cc (accounted i p o, stopped.1))
            | inr o ↦ o
          ],
        )
