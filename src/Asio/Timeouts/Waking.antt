-- ===== src/Asio/Timeouts/Waking.antt =====
-- What holds of each session, and the operations on a session.
use boost.Prelude.{
  ◌≡◌, ◌≢◌, refl, ap, ◌∙◌, ℕ, Bool, true, false, not, List, [], ◌∷◌, ◌++◌, Bytes, if_induct,
}
use boost.Asio.Timeouts.{
  Output, idle, waiting, woken, writing, Session, wake, enqueue, closed, start_write, await_queue,
  await_output,
}

-- The output actor sleeps only where the session is open and its queue is empty, and it writes the
-- front of the queue.
pub record IsAwake (s : Session) : Type 0 where
  pub asleep_open : s.output ≡ waiting → s.is_open ≡ true
  pub asleep_empty : s.output ≡ waiting → s.output_queue ≡ []
  pub front :
      (bytes : Bytes)
      → s.output ≡ writing bytes
      → (rest : List Bytes) × (s.output_queue ≡ bytes ∷ rest)

-- Both deadlines are checked and the output actor is at work.
pub record IsActive (s : Session) : Type 0 where
  pub is_open : s.is_open ≡ true
  pub checks_input : s.is_checking_input ≡ true
  pub checks_output : s.is_checking_output ≡ true
  pub has_output : s.output ≢ idle

pub record IsAlive (s : Session) : Type 0 where
  pub active : IsActive s
  pub reads : s.is_reading ≡ true

wake-ne-waiting : (o : Output) → wake o ≢ waiting
wake-ne-waiting idle e = cc
wake-ne-waiting waiting e = cc
wake-ne-waiting woken e = cc
wake-ne-waiting (writing b) e = cc

wake-writing : (o : Output) (bytes : Bytes) → wake o ≡ writing bytes → o ≡ writing bytes
wake-writing idle bytes e = cc
wake-writing waiting bytes e = cc
wake-writing woken bytes e = cc
wake-writing (writing b) bytes e = e

wake-ne-idle : (o : Output) → o ≢ idle → wake o ≢ idle
wake-ne-idle idle ne e = ne e
wake-ne-idle waiting ne e = cc
wake-ne-idle woken ne e = cc
wake-ne-idle (writing b) ne e = cc

pub enqueue-IsAwake : (msg : Bytes) (s : Session) → IsAwake s → IsAwake (enqueue msg s)
enqueue-IsAwake msg s h = record {
  asleep_open = λ e. absurd (wake-ne-waiting s.output e);
  asleep_empty = λ e. absurd (wake-ne-waiting s.output e);
  front = λ bytes e.
      let (rest, same) = h.front bytes (wake-writing s.output bytes e) in
      (rest ++ msg ∷ [], rw same);
}

pub enqueue-IsActive : (msg : Bytes) (s : Session) → IsActive s → IsActive (enqueue msg s)
enqueue-IsActive msg s h = record {
  is_open = h.is_open;
  checks_input = h.checks_input;
  checks_output = h.checks_output;
  has_output = wake-ne-idle s.output h.has_output;
}

pub closed-IsAwake : (s : Session) → IsAwake s → IsAwake (closed s)
unfolding closed
closed-IsAwake s h = record {
  asleep_open = λ e. absurd (wake-ne-waiting s.output e);
  asleep_empty = λ e. absurd (wake-ne-waiting s.output e);
  front = λ bytes e. h.front bytes (wake-writing s.output bytes e);
}

-- An actor with no operation is neither asleep nor writing.
pub idle-IsAwake : (s : Session) → s.output ≡ idle → IsAwake s
idle-IsAwake s e = record {
  asleep_open = λ f. cc;
  asleep_empty = λ f. cc;
  front = λ bytes f. absurd (cc);
}

await_queue-IsAwake :
    (now : ℕ) (l : List Bytes) (s : Session)
    → s.output_queue ≡ l
    → s.is_open ≡ true
    → IsAwake (await_queue now l s)
unfolding start_write
await_queue-IsAwake now [] s e o = record {
  asleep_open = λ f. o;
  asleep_empty = λ f. e;
  front = λ bytes f. absurd (cc);
}
await_queue-IsAwake now (msg ∷ l) s e o = record {
  asleep_open = λ f. cc;
  asleep_empty = λ f. cc;
  front = λ bytes f. let same : msg ≡ bytes = cc in (l, e ∙ ap (λ b. b ∷ l) same);
}

pub await_queue_busy :
    (now : ℕ) (l : List Bytes) (s : Session) → (await_queue now l s).output ≢ idle
unfolding start_write
await_queue_busy now [] s e = cc
await_queue_busy now (msg ∷ l) s e = cc

pub not-true : (b : Bool) → not b ≡ true → b ≡ false
not-true true e = cc
not-true false e = refl

pub not-false : (b : Bool) → not b ≡ false → b ≡ true
not-false true e = refl
not-false false e = cc

pub await_output-IsAwake : (now : ℕ) (s : Session) → IsAwake (await_output now s)
unfolding await_output
await_output-IsAwake now s =
    if_induct IsAwake (not s.is_open) _ _ (λ e. idle-IsAwake _ refl)
      (λ e. await_queue-IsAwake now s.output_queue s refl (not-false s.is_open e))
