-- ===== src/Asio/TimeoutClient/Talking.antt =====
-- Reads, heartbeats and the deadline.
use boost.Prelude.{◌≡◌, ◌≢◌, refl, ℕ, true, List, Bytes, Bool-cases, inl, inr, if_induct}
use boost.Asio.Connection.{ErrorCode, success, operation_aborted, failure}
use boost.Asio.Timeouts.{has_passed}
use boost.Asio.TimeoutClient.{
  Heartbeat, silent, beating, resting, Client, stop, start_read, start_write, handle_read,
  handle_write, check_deadline,
}
use boost.Asio.TimeoutClient.Connecting.{IsTrying, beat_ne, stopped-IsTrying}

module _ (endpoints : List ℕ) where
  pub handle_read-IsTrying :
      (now : ℕ) (e : ErrorCode) (bytes : Bytes) (c : Client)
      → c.is_reading ≡ true
      → IsTrying endpoints c
      → IsTrying endpoints (handle_read now e bytes c)
  unfolding handle_read start_read stop
  handle_read-IsTrying now success bytes c reads h =
      if_induct (IsTrying endpoints) c.stopped _ _
        (λ k. stopped-IsTrying endpoints _ k h.tried_in_order)
        (λ k. elim (h.busy k) [
          | inl connecting ↦ absurd (cc (reads, connecting.no_read))
          | inr talking ↦ record {
            tried_in_order = h.tried_in_order;
            checked = h.checked;
            busy = λ f. inr (record {
              no_connect = talking.no_connect;
              reads = refl;
              heartbeat = talking.heartbeat;
            });
          }
        ])
  handle_read-IsTrying now operation_aborted bytes c reads h =
      if_induct (IsTrying endpoints) c.stopped _ _
        (λ k. stopped-IsTrying endpoints _ k h.tried_in_order)
        (λ k. stopped-IsTrying endpoints _ refl h.tried_in_order)
  handle_read-IsTrying now failure bytes c reads h =
      if_induct (IsTrying endpoints) c.stopped _ _
        (λ k. stopped-IsTrying endpoints _ k h.tried_in_order)
        (λ k. stopped-IsTrying endpoints _ refl h.tried_in_order)

  -- A heartbeat that is not over goes on where the client talks.
  beat-IsTrying :
      (beat : Heartbeat) (c : Client)
      → beat ≢ silent
      → c.heartbeat_timer ≢ silent
      → IsTrying endpoints c
      → IsTrying endpoints (record c { heartbeat_timer = beat })
  beat-IsTrying beat c new old h = record {
    tried_in_order = h.tried_in_order;
    checked = h.checked;
    busy = λ f. elim (h.busy f) [
      | inl connecting ↦ absurd (old connecting.no_heartbeat)
      | inr talking ↦
          inr (record { no_connect = talking.no_connect; reads = talking.reads; heartbeat = new })
    ];
  }

  pub handle_write-IsTrying :
      (e : ErrorCode) (c : Client)
      → c.heartbeat_timer ≡ beating
      → IsTrying endpoints c
      → IsTrying endpoints (handle_write e c)
  unfolding handle_write stop
  handle_write-IsTrying success c beats h =
      if_induct (IsTrying endpoints) c.stopped _ _
        (λ k. stopped-IsTrying endpoints _ k h.tried_in_order)
        (λ k. beat-IsTrying resting c (λ f. cc) (λ f. absurd (cc (beats, f))) h)
  handle_write-IsTrying operation_aborted c beats h =
      if_induct (IsTrying endpoints) c.stopped _ _
        (λ k. stopped-IsTrying endpoints _ k h.tried_in_order)
        (λ k. stopped-IsTrying endpoints _ refl h.tried_in_order)
  handle_write-IsTrying failure c beats h =
      if_induct (IsTrying endpoints) c.stopped _ _
        (λ k. stopped-IsTrying endpoints _ k h.tried_in_order)
        (λ k. stopped-IsTrying endpoints _ refl h.tried_in_order)

  pub start_write-IsTrying :
      (c : Client)
      → c.heartbeat_timer ≡ resting
      → IsTrying endpoints c
      → IsTrying endpoints (start_write c)
  unfolding start_write
  start_write-IsTrying c rests h = elim (Bool-cases c.stopped) [
    | inl k ↦ stopped-IsTrying endpoints _ k h.tried_in_order
    | inr k ↦ beat-IsTrying _ c (beat_ne c.stopped k) (λ f. absurd (cc (rests, f))) h
  ]

  pub check_deadline-IsTrying :
      (now : ℕ) (c : Client) → IsTrying endpoints c → IsTrying endpoints (check_deadline now c)
  unfolding check_deadline
  check_deadline-IsTrying now c h =
      if_induct (IsTrying endpoints) c.stopped _ _
        (λ k. stopped-IsTrying endpoints _ k h.tried_in_order)
        (λ k.
          if_induct (IsTrying endpoints) (has_passed now c.deadline) _ _
            (λ passed. record {
              tried_in_order = h.tried_in_order;
              checked = h.checked;
              busy = λ f. elim (h.busy f) [
                | inl x ↦ inl (record {
                  current = x.current;
                  rest = x.rest;
                  connects = x.connects;
                  in_order = x.in_order;
                  no_read = x.no_read;
                  no_heartbeat = x.no_heartbeat;
                })
                | inr x ↦
                    inr (record {
                      no_connect = x.no_connect;
                      reads = x.reads;
                      heartbeat = x.heartbeat;
                    })
              ];
            })
            (λ later. h))
