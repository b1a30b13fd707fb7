-- ===== src/Asio/Timeouts/Reading.antt =====
-- What a read leaves of the channel.
use boost.Prelude.{◌≡◌, refl, ℕ, false, not, ◌++◌, if◌then◌else◌, Bytes, eq_refl, if_induct}
use boost.Asio.Connection.{ErrorCode, success, operation_aborted, failure}
use boost.Asio.Timeouts.{Session, Channel, put, stop, start_read, getline, receive, handle_read}
use boost.Asio.Timeouts.Waking.{
  IsAwake, IsActive, IsAlive, enqueue-IsAwake, enqueue-IsActive, not-true,
}
use boost.Asio.Timeouts.Reaching.{
  IsSound, put-IsSound, stop-IsSound, closed-IsSound, put_other, receive-keeps, receive-subscribers,
  enqueue-IsAlive,
}
use boost.Asio.Timeouts.Alive.{same-IsAwake, same-IsActive}

pub put_at :
    (p : ℕ) (f : Session → Session) (ch : Channel) → (put p f ch).sessions p ≡ f (ch.sessions p)
put_at p f ch = rw (eq_refl p)

received-IsSound :
    (now p : ℕ) (msg left : Bytes) (ch : Channel)
    → IsSound ch
    → IsSound (
        put p
          (start_read now)
          (receive p msg (put p (λ s. record s { is_reading = false; input_buffer = left }) ch)))
unfolding start_read
received-IsSound now p msg left ch h =
    let before = put p (λ s. record s { is_reading = false; input_buffer = left }) ch in
    let got = receive p msg before in
    let at = put_at p (λ s. record s { is_reading = false; input_buffer = left }) ch in
    let same = receive-subscribers p msg before in
    let awake : IsAwake (got.sessions p) =
      receive-keeps IsAwake enqueue-IsAwake p msg before p
        (rw at (same-IsAwake (ch.sessions p) _ refl refl refl (h p).0)) in
    put-IsSound p (start_read now) got (same-IsAwake (got.sessions p) _ refl refl refl awake)
      (λ k.
        let alive = (h p).1 (rw⁻¹ same k) in
        let active : IsActive (got.sessions p) =
          receive-keeps IsActive enqueue-IsActive p msg before p
            (rw at (same-IsActive (ch.sessions p) _ refl refl refl refl alive.active)) in
        record {
          active = same-IsActive (got.sessions p) _ refl refl refl refl active;
          reads = refl;
        })
      (λ j ne.
        let other =
          put_other p (λ s. record s { is_reading = false; input_buffer = left }) ch h j ne in
        (
          receive-keeps IsAwake enqueue-IsAwake p msg before j other.0,
          λ k. receive-keeps IsAlive enqueue-IsAlive p msg before j (other.1 (rw⁻¹ same k)),
        ))

-- A session that is closed drops its operation; an open one stops.
pub dropped-IsSound :
    (p : ℕ) (f : Session → Session) (ch : Channel)
    → IsSound ch
    → IsAwake (f (ch.sessions p))
    → IsSound (if not (ch.sessions p).is_open then put p f ch else stop p (put p f ch))
dropped-IsSound p f ch h awake =
    if_induct IsSound (not (ch.sessions p).is_open) _ _
      (λ e. closed-IsSound p f ch h (not-true _ e) awake)
      (λ e. stop-IsSound p (put p f ch) (rw (put_at p f ch) awake) (put_other p f ch h))

failed_read-IsSound :
    (p : ℕ) (ch : Channel)
    → IsSound ch
    → IsSound (
        if not (ch.sessions p).is_open
        then put p (λ s. record s { is_reading = false }) ch
        else stop p (put p (λ s. record s { is_reading = false }) ch))
failed_read-IsSound p ch h =
    dropped-IsSound p (λ s. record s { is_reading = false }) ch h
      (same-IsAwake (ch.sessions p) _ refl refl refl (h p).0)

pub handle_read-IsSound :
    (now p : ℕ) (e : ErrorCode) (bytes : Bytes) (ch : Channel)
    → IsSound ch
    → IsSound (handle_read now p e bytes ch)
unfolding handle_read
handle_read-IsSound now p success bytes ch h =
    let parts = getline ((ch.sessions p).input_buffer ++ bytes) in
    if_induct IsSound (not (ch.sessions p).is_open) _ _
      (λ e.
        closed-IsSound p (λ s. record s { is_reading = false }) ch h (not-true _ e)
          (same-IsAwake (ch.sessions p) (record (ch.sessions p) { is_reading = false }) refl refl
            refl (h p).0))
      (λ e. received-IsSound now p parts.0 parts.1 ch h)
handle_read-IsSound now p operation_aborted bytes ch h = failed_read-IsSound p ch h
handle_read-IsSound now p failure bytes ch h = failed_read-IsSound p ch h
