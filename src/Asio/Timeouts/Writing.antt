-- ===== src/Asio/Timeouts/Writing.antt =====
-- What a write and the deadlines leave of the channel.
use boost.Prelude.{refl, ℕ, Bool, false, not, if◌then◌else◌, if_induct}
use boost.Asio.Connection.{ErrorCode, success, operation_aborted, failure}
use boost.Asio.Timeouts.{
  idle, Session, Channel, put, stop, await_output, pop_front, handle_write, has_passed, check_input,
  check_output,
}
use boost.Asio.Timeouts.Waking.{IsAwake, idle-IsAwake, await_output-IsAwake, not-true}
use boost.Asio.Timeouts.Reaching.{IsSound, put-IsSound, stop-IsSound, closed-IsSound, put_other}
use boost.Asio.Timeouts.Alive.{same-IsAwake, await_output-IsAlive}
use boost.Asio.Timeouts.Reading.{put_at, dropped-IsSound}

pub woken-IsSound : (now p : ℕ) (ch : Channel) → IsSound ch → IsSound (put p (await_output now) ch)
woken-IsSound now p ch h =
    put-IsSound p (await_output now) ch (await_output-IsAwake now (ch.sessions p))
      (λ k.
        let alive = (h p).1 k in
        await_output-IsAlive now (ch.sessions p) alive.active.is_open alive.active.checks_input
          alive.active.checks_output alive.reads)
      (λ j ne. h j)

wrote-IsSound :
    (now p : ℕ) (ch : Channel)
    → IsSound ch
    → IsSound (
        put p
          (await_output now)
          (put p (λ s. record s { output_queue = pop_front s.output_queue; output = idle }) ch))
wrote-IsSound now p ch h =
    let f : Session → Session =
      λ s. record s { output_queue = pop_front s.output_queue; output = idle } in
    put-IsSound p (await_output now) (put p f ch) (await_output-IsAwake now _)
      (λ k.
        let alive = (h p).1 k in
        rw (put_at p f ch) (
          await_output-IsAlive now (f (ch.sessions p)) alive.active.is_open
            alive.active.checks_input alive.active.checks_output alive.reads))
      (put_other p f ch h)

failed_write-IsSound :
    (p : ℕ) (ch : Channel)
    → IsSound ch
    → IsSound (
        if not (ch.sessions p).is_open
        then put p (λ s. record s { output = idle }) ch
        else stop p (put p (λ s. record s { output = idle }) ch))
failed_write-IsSound p ch h =
    dropped-IsSound p (λ s. record s { output = idle }) ch h (idle-IsAwake _ refl)

pub handle_write-IsSound :
    (now p : ℕ) (e : ErrorCode) (ch : Channel) → IsSound ch → IsSound (handle_write now p e ch)
unfolding handle_write
handle_write-IsSound now p success ch h =
    if_induct IsSound (not (ch.sessions p).is_open) _ _
      (λ e.
        closed-IsSound p (λ s. record s { output = idle }) ch h (not-true _ e)
          (idle-IsAwake _ refl))
      (λ e. wrote-IsSound now p ch h)
handle_write-IsSound now p operation_aborted ch h = failed_write-IsSound p ch h
handle_write-IsSound now p failure ch h = failed_write-IsSound p ch h

-- A deadline stops a session, or leaves everything as it is.
checked-IsSound :
    (b : Bool) (p : ℕ) (f : Session → Session) (ch : Channel)
    → IsSound ch
    → IsAwake (f (ch.sessions p))
    → IsSound
        (if not (ch.sessions p).is_open then put p f ch else if b then stop p (put p f ch) else ch)
checked-IsSound b p f ch h awake =
    if_induct IsSound (not (ch.sessions p).is_open) _ _
      (λ e. closed-IsSound p f ch h (not-true _ e) awake)
      (λ e.
        if_induct IsSound b _ _
          (λ passed. stop-IsSound p (put p f ch) (rw (put_at p f ch) awake) (put_other p f ch h))
          (λ later. h))

pub check_input-IsSound : (now p : ℕ) (ch : Channel) → IsSound ch → IsSound (check_input now p ch)
unfolding check_input
check_input-IsSound now p ch h =
    checked-IsSound (has_passed now (ch.sessions p).input_deadline) p
      (λ s. record s { is_checking_input = false }) ch h
      (same-IsAwake (ch.sessions p) (record (ch.sessions p) { is_checking_input = false }) refl refl
        refl (h p).0)

pub check_output-IsSound : (now p : ℕ) (ch : Channel) → IsSound ch → IsSound (check_output now p ch)
unfolding check_output
check_output-IsSound now p ch h =
    checked-IsSound (has_passed now (ch.sessions p).output_deadline) p
      (λ s. record s { is_checking_output = false }) ch h
      (same-IsAwake (ch.sessions p) (record (ch.sessions p) { is_checking_output = false }) refl
        refl refl (h p).0)
