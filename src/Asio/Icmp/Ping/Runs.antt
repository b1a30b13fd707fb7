-- ===== src/Asio/Icmp/Ping/Runs.antt =====
-- The runs of the pinger.
use boost.Prelude.{◌≡◌, ◌≤◌, ℕ, suc, List, ◌∷◌, Bytes}
use boost.Asio.Icmp.Ping.{
  Task, timeout, sending, Pinger, start_send, handle_timeout, handle_receive, pinger,
}

-- A handler of a wait.
abbrev pub perform : ℕ → ℕ → Task → Pinger → Pinger
perform id now timeout p = handle_timeout p
perform id now sending p = start_send id now p

-- The pingers that a number of calls of handlers leads to by a time: a wait that has expired, one
-- that was cancelled, and a packet that was received.
pub data Runs (id : ℕ) : ℕ → ℕ → Pinger → Type 0 where
  created : (now : ℕ) → Runs id 0 now (pinger id now)
  expired :
      {n earlier : ℕ} {p : Pinger} (now : ℕ) (task : Task) (rest : List Task)
      → Runs id n earlier p
      → earlier ≤ now
      → p.expiry ≤ now
      → p.waits ≡ task ∷ rest
      → Runs id (suc n) now (perform id now task (record p { waits = rest }))
  aborted :
      {n earlier : ℕ} {p : Pinger} (now : ℕ) (task : Task) (rest : List Task)
      → Runs id n earlier p
      → earlier ≤ now
      → p.cancelled ≡ task ∷ rest
      → Runs id (suc n) now (perform id now task (record p { cancelled = rest }))
  received :
      {n earlier : ℕ} {p : Pinger} (now : ℕ) (packet : Bytes)
      → Runs id n earlier p
      → earlier ≤ now
      → Runs id (suc n) now (handle_receive id now packet p)
