-- ===== src/Asio/TimeoutClient/Trying.antt =====
-- The client in every run.
use boost.Prelude.{◌≡◌, refl, ℕ, true, List, some, Bytes}
use boost.Asio.Connection.{ErrorCode}
use boost.Asio.TimeoutClient.{
  beating, resting, Client, make_client, start, start_write, handle_connect, handle_read,
  handle_write, check_deadline,
}
use boost.Asio.TimeoutClient.Connecting.{
  IsTrying, start_same, start_connect-IsTrying, handle_connect-IsTrying,
}
use boost.Asio.TimeoutClient.Talking.{
  handle_read-IsTrying, handle_write-IsTrying, start_write-IsTrying, check_deadline-IsTrying,
}

-- The next event: an operation that is under way completes, with any outcome.
pub data Step (c : Client) : Client → Type 0 where
  was_connected :
      (now : ℕ) (e : ErrorCode) (endpoints : List ℕ)
      → c.connecting ≡ some endpoints
      → Step c (handle_connect now e endpoints c)
  was_read :
      (now : ℕ) (e : ErrorCode) (bytes : Bytes)
      → c.is_reading ≡ true
      → Step c (handle_read now e bytes c)
  was_written : (e : ErrorCode) → c.heartbeat_timer ≡ beating → Step c (handle_write e c)
  rested : c.heartbeat_timer ≡ resting → Step c (start_write c)
  deadline_checked : (now : ℕ) → c.is_checking ≡ true → Step c (check_deadline now c)

pub data Reach (c : Client) : Client → Type 0 where
  here : Reach c c
  next : {t u : Client} → Reach c t → Step t u → Reach c u

module _ (endpoints : List ℕ) where
  Step-IsTrying : {c d : Client} → Step c d → IsTrying endpoints c → IsTrying endpoints d
  Step-IsTrying {c} (was_connected now e iter at) h =
      handle_connect-IsTrying endpoints now e iter c at h
  Step-IsTrying {c} (was_read now e bytes reads) h =
      handle_read-IsTrying endpoints now e bytes c reads h
  Step-IsTrying {c} (was_written e beats) h = handle_write-IsTrying endpoints e c beats h
  Step-IsTrying {c} (rested rests) h = start_write-IsTrying endpoints c rests h
  Step-IsTrying {c} (deadline_checked now _) h = check_deadline-IsTrying endpoints now c h

  start-IsTrying : (now : ℕ) → IsTrying endpoints (start now endpoints make_client)
  start-IsTrying now =
      rw (start_same now endpoints make_client)
        (start_connect-IsTrying endpoints now endpoints _ refl refl refl refl)

-- In every run of the client with deadlines, with completions in any order and with any outcome,
-- the endpoints that it has tried are a first part of those that it was given, in their order.
-- While it is not stopped, its deadline is checked, and either a connect is under way, to an
-- endpoint behind which stand those that are left, or a read is under way and the heartbeat goes
-- on.
pub Reach-IsTrying :
    (now : ℕ) (endpoints : List ℕ) {c : Client}
    → Reach (start now endpoints make_client) c
    → IsTrying endpoints c
Reach-IsTrying now endpoints here = start-IsTrying endpoints now
Reach-IsTrying now endpoints (next r st) =
    Step-IsTrying endpoints st (Reach-IsTrying now endpoints r)
