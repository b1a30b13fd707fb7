-- ===== src/Asio/TimeoutClient/Connecting.antt =====
-- What the client has under way until it stops, and its connects.
use boost.Prelude.{
  ◌≡◌, ◌≢◌, ◌⊎◌, refl, ◌∙◌, ℕ, Bool, true, false, not, List, [], ◌∷◌, ◌++◌, none, some,
  if◌then◌else◌, append_assoc, inl, inr, if_induct,
}
use boost.Asio.Connection.{ErrorCode, success, operation_aborted, failure}
use boost.Asio.TimeoutClient.{
  silent, beating, Client, stop, start_connect, start, start_read, start_write, behind, connected,
  handle_connect,
}

-- It connects to an endpoint, and the endpoints that come behind are those left to try.
pub record IsConnecting (endpoints : List ℕ) (c : Client) : Type 0 where
  pub current : ℕ
  pub rest : List ℕ
  pub connects : c.connecting ≡ some (current ∷ rest)
  pub in_order : c.tried ++ rest ≡ endpoints
  pub no_read : c.is_reading ≡ false
  pub no_heartbeat : c.heartbeat_timer ≡ silent

-- It reads, and its heartbeat goes on.
pub record IsTalking (c : Client) : Type 0 where
  pub no_connect : c.connecting ≡ none
  pub reads : c.is_reading ≡ true
  pub heartbeat : c.heartbeat_timer ≢ silent

-- The endpoints were tried in order; a client that is not stopped connects or talks, and its
-- deadline is checked.
pub record IsTrying (endpoints : List ℕ) (c : Client) : Type 0 where
  pub tried_in_order : (rest : List ℕ) × (c.tried ++ rest ≡ endpoints)
  pub checked : c.stopped ≡ false → c.is_checking ≡ true
  pub busy : c.stopped ≡ false → IsConnecting endpoints c ⊎ IsTalking c

pub beat_ne : (b : Bool) → b ≡ false → (if b then silent else beating) ≢ silent
beat_ne true e f = cc
beat_ne false e f = cc

pub start_same :
    (now : ℕ) (iter : List ℕ) (c : Client)
    → start now iter c ≡ start_connect now iter (record c { is_checking = true })
unfolding start start_connect stop
start_same now [] c = refl
start_same now (e ∷ rest) c = refl

module _ (endpoints : List ℕ) where
  pub stopped-IsTrying :
      (c : Client)
      → c.stopped ≡ true
      → (rest : List ℕ) × (c.tried ++ rest ≡ endpoints)
      → IsTrying endpoints c
  stopped-IsTrying c e order = record {
    tried_in_order = order;
    checked = λ f. absurd (cc);
    busy = λ f. absurd (cc);
  }

  pub start_connect-IsTrying :
      (now : ℕ) (rest : List ℕ) (c : Client)
      → c.tried ++ rest ≡ endpoints
      → c.is_checking ≡ true
      → c.is_reading ≡ false
      → c.heartbeat_timer ≡ silent
      → IsTrying endpoints (start_connect now rest c)
  unfolding start_connect stop
  start_connect-IsTrying now [] c order checks reads beats = stopped-IsTrying _ refl ([], order)
  start_connect-IsTrying now (e ∷ rest) c order checks reads beats =
      let moved : (c.tried ++ e ∷ []) ++ rest ≡ endpoints =
        append_assoc c.tried (e ∷ []) rest ∙ order in
      record {
        tried_in_order = (rest, moved);
        checked = λ f. checks;
        busy = λ f. inl (record {
          current = e;
          rest = rest;
          connects = refl;
          in_order = moved;
          no_read = reads;
          no_heartbeat = beats;
        });
      }

  connected-IsTrying :
      (now : ℕ) (e : ErrorCode) (c : Client)
      → c.stopped ≡ false
      → c.is_checking ≡ true
      → (h : IsConnecting endpoints c)
      → IsTrying endpoints (connected now e (h.current ∷ h.rest) (record c { connecting = none }))
  unfolding connected start_read start_write
  connected-IsTrying now success c run checks h = record {
    tried_in_order = (h.rest, h.in_order);
    checked = λ f. checks;
    busy = λ f. inr (record { no_connect = refl; reads = refl; heartbeat = beat_ne c.stopped run });
  }
  connected-IsTrying now operation_aborted c run checks h =
      start_connect-IsTrying now h.rest _ h.in_order checks h.no_read h.no_heartbeat
  connected-IsTrying now failure c run checks h =
      start_connect-IsTrying now h.rest _ h.in_order checks h.no_read h.no_heartbeat

  -- The iterator of a connect that is under way is that of the client.
  connecting-IsTrying :
      (now : ℕ) (e : ErrorCode) (iter : List ℕ) (c : Client)
      → c.connecting ≡ some iter
      → c.stopped ≡ false
      → c.is_checking ≡ true
      → IsConnecting endpoints c
      → IsTrying endpoints (
          if not c.is_open
          then start_connect now (behind iter) (record c { connecting = none })
          else connected now e iter (record c { connecting = none }))
  connecting-IsTrying now e iter c at run checks h =
      let same : iter ≡ h.current ∷ h.rest = cc (at, h.connects) in
      rw same (
        if_induct (IsTrying endpoints) (not c.is_open) _ _
          (λ k. start_connect-IsTrying now h.rest _ h.in_order checks h.no_read h.no_heartbeat)
          (λ k. connected-IsTrying now e c run checks h))

  pub handle_connect-IsTrying :
      (now : ℕ) (e : ErrorCode) (iter : List ℕ) (c : Client)
      → c.connecting ≡ some iter
      → IsTrying endpoints c
      → IsTrying endpoints (handle_connect now e iter c)
  unfolding handle_connect
  handle_connect-IsTrying now e iter c at h =
      if_induct (IsTrying endpoints) c.stopped _ _ (λ k. stopped-IsTrying _ k h.tried_in_order)
        (λ k. elim (h.busy k) [
          | inl connecting ↦ connecting-IsTrying now e iter c at k (h.checked k) connecting
          | inr talking ↦ absurd (cc (at, talking.no_connect))
        ])
