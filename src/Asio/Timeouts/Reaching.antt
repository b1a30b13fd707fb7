-- ===== src/Asio/Timeouts/Reaching.antt =====
-- The sessions and the channel in every order of events.
use boost.Prelude.{
  ◌≡◌, refl, ℕ, true, false, List, [], ◌∷◌, ◌++◌, ◌==◌, Bytes, Bool-cases, inl, inr, ==_iff,
  if_induct,
}
use boost.Asio.Connection.{ErrorCode, contains}
use boost.Asio.Connection.Sets.{contains-erase_other, contains-erase_self}
use boost.Asio.Timeouts.{
  woken, writing, Session, Channel, make_session, enqueue, deliver, put, deliver_each,
  deliver_channel, leave, closed, stop, await_output, is_empty, receive, handle_read, handle_write,
  check_input, check_output, start,
}
use boost.Asio.Timeouts.Waking.{IsAwake, IsAlive, enqueue-IsActive, closed-IsAwake}

-- Every session is awake, and a subscribed one is alive.
abbrev pub IsSoundAt : Channel → ℕ → Type 0
IsSoundAt ch j =
    IsAwake (ch.sessions j) × (contains j ch.subscribers ≡ true → IsAlive (ch.sessions j))

abbrev pub IsSound : Channel → Type 0
IsSound ch = (j : ℕ) → IsSoundAt ch j

-- The next event: a session starts, or an operation that is under way completes.
pub data Step (ch : Channel) : Channel → Type 0 where
  started : (now p : ℕ) → ch.sessions p ≡ make_session → Step ch (start now p ch)
  was_read :
      (now p : ℕ) (e : ErrorCode) (bytes : Bytes)
      → (ch.sessions p).is_reading ≡ true
      → Step ch (handle_read now p e bytes ch)
  output_woken :
      (now p : ℕ) → (ch.sessions p).output ≡ woken → Step ch (put p (await_output now) ch)
  was_written :
      (now p : ℕ) (e : ErrorCode) (bytes : Bytes)
      → (ch.sessions p).output ≡ writing bytes
      → Step ch (handle_write now p e ch)
  input_checked :
      (now p : ℕ) → (ch.sessions p).is_checking_input ≡ true → Step ch (check_input now p ch)
  output_checked :
      (now p : ℕ) → (ch.sessions p).is_checking_output ≡ true → Step ch (check_output now p ch)

pub put-IsSound :
    (p : ℕ) (f : Session → Session) (ch : Channel)
    → IsAwake (f (ch.sessions p))
    → (contains p ch.subscribers ≡ true → IsAlive (f (ch.sessions p)))
    → ((j : ℕ) → (j == p) ≡ false → IsSoundAt ch j)
    → IsSound (put p f ch)
put-IsSound p f ch awake alive others j = elim (Bool-cases (j == p)) [
  | inl e ↦ let same : j ≡ p = (==_iff j p).0 e in rw (e, same) (awake, alive)
  | inr e ↦ rw e (others j e)
]

pub stop-IsSound :
    (p : ℕ) (ch : Channel)
    → IsAwake (ch.sessions p)
    → ((j : ℕ) → (j == p) ≡ false → IsSoundAt ch j)
    → IsSound (stop p ch)
unfolding stop
stop-IsSound p ch awake others =
    put-IsSound p closed (leave p ch) (closed-IsAwake (ch.sessions p) awake)
      (λ k. absurd (cc (contains-erase_self p ch.subscribers, k)))
      (λ j ne. ((others j ne).0, λ k. (others j ne).1 (contains-erase_other j p ch.subscribers k)))

-- A change of a session that is closed, and so has left.
pub closed-IsSound :
    (p : ℕ) (f : Session → Session) (ch : Channel)
    → IsSound ch
    → (ch.sessions p).is_open ≡ false
    → IsAwake (f (ch.sessions p))
    → IsSound (put p f ch)
closed-IsSound p f ch h shut awake =
    put-IsSound p f ch awake
      (λ k. let alive = (h p).1 k in absurd (cc (alive.active.is_open, shut))) (λ j ne. h j)

-- The session behind a first change, and the others.
abbrev pub put_other :
    (p : ℕ) (f : Session → Session) (ch : Channel)
    → IsSound ch
    → (j : ℕ) → (j == p) ≡ false
    → IsSoundAt (put p f ch) j
put_other p f ch h j ne = rw ne (h j)

module _ (P : Session → Type 0)
    (keeps : (msg : Bytes) (s : Session) → P s → P (enqueue msg s)) where
  deliver_each-keeps :
      (msg : Bytes) (ps : List ℕ) (sessions : ℕ → Session) (j : ℕ)
      → P (sessions j)
      → P (deliver_each msg ps sessions j)
  unfolding deliver_each deliver
  deliver_each-keeps msg [] sessions j h = h
  deliver_each-keeps msg (p ∷ ps) sessions j h =
      deliver_each-keeps msg ps _ j
        (if_induct P (j == p) _ _ (λ e. keeps (msg ++ b'\n' ∷ []) (sessions j) h) (λ e. h))

  pub receive-keeps :
      (p : ℕ) (msg : Bytes) (ch : Channel) (j : ℕ)
      → P (ch.sessions j)
      → P ((receive p msg ch).sessions j)
  unfolding deliver_channel
  receive-keeps p [] ch j h =
      if_induct P (j == p) _ _
        (λ e.
          if_induct P (is_empty (ch.sessions j).output_queue) _ _
            (λ f. keeps (b'\n' ∷ []) (ch.sessions j) h) (λ f. h))
        (λ e. h)
  receive-keeps p (c ∷ msg) ch j h = deliver_each-keeps (c ∷ msg) ch.subscribers ch.sessions j h

pub receive-subscribers :
    (p : ℕ) (msg : Bytes) (ch : Channel) → (receive p msg ch).subscribers ≡ ch.subscribers
unfolding deliver_channel
receive-subscribers p [] ch = refl
receive-subscribers p (c ∷ msg) ch = refl

pub enqueue-IsAlive : (msg : Bytes) (s : Session) → IsAlive s → IsAlive (enqueue msg s)
enqueue-IsAlive msg s h = record { active = enqueue-IsActive msg s h.active; reads = h.reads }
