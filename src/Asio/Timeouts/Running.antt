-- ===== src/Asio/Timeouts/Running.antt =====
-- The sessions and the channel in every run.
use boost.Prelude.{◌≡◌, refl, ℕ, [], ◌==◌, Bool-cases, inl, inr, ==_iff, eq_refl}
use boost.Asio.Connection.Sets.{contains-insert_other}
use boost.Asio.Timeouts.{Channel, make_session, start_read, start_write, await_output, start}
use boost.Asio.Timeouts.Waking.{IsAwake, IsAlive, idle-IsAwake}
use boost.Asio.Timeouts.Reaching.{
  IsSoundAt, IsSound, Step, started, was_read, output_woken, was_written, input_checked,
  output_checked,
}
use boost.Asio.Timeouts.Reading.{handle_read-IsSound}
use boost.Asio.Timeouts.Writing.{
  woken-IsSound, handle_write-IsSound, check_input-IsSound, check_output-IsSound,
}

start-session :
    (now p : ℕ) (ch : Channel)
    → ch.sessions p ≡ make_session
    → IsAlive ((start now p ch).sessions p) × IsAwake ((start now p ch).sessions p)
unfolding start start_read await_output start_write
start-session now p ch e =
    rw (eq_refl p, e)
      (
        record {
          active = record {
            is_open = refl;
            checks_input = refl;
            checks_output = refl;
            has_output = λ f. cc;
          };
          reads = refl;
        },
        record {
          asleep_open = λ f. refl;
          asleep_empty = λ f. refl;
          front = λ bytes f. absurd (cc);
        },
      )

start-IsSound :
    (now p : ℕ) (ch : Channel)
    → IsSound ch
    → ch.sessions p ≡ make_session
    → IsSound (start now p ch)
unfolding start
start-IsSound now p ch h e j = elim (Bool-cases (j == p)) [
  | inl same ↦
      let at : j ≡ p = (==_iff j p).0 same in
      let (alive, awake) = start-session now p ch e in rw at (awake, λ k. alive)
  | inr ne ↦ rw ne ((h j).0, λ k. (h j).1 (contains-insert_other j p ch.subscribers ne k))
]

Step-IsSound : (ch after : Channel) → IsSound ch → Step ch after → IsSound after
Step-IsSound ch _ h (started now p e) = start-IsSound now p ch h e
Step-IsSound ch _ h (was_read now p e bytes _) = handle_read-IsSound now p e bytes ch h
Step-IsSound ch _ h (output_woken now p _) = woken-IsSound now p ch h
Step-IsSound ch _ h (was_written now p e bytes _) = handle_write-IsSound now p e ch h
Step-IsSound ch _ h (input_checked now p _) = check_input-IsSound now p ch h
Step-IsSound ch _ h (output_checked now p _) = check_output-IsSound now p ch h

pub data Reach (ch : Channel) : Channel → Type 0 where
  here : Reach ch ch
  next : {t u : Channel} → Reach ch t → Step t u → Reach ch u

-- Nobody has joined, and no session has started.
pub record IsNew (ch : Channel) : Type 0 where
  pub nobody : ch.subscribers ≡ []
  pub fresh : (j : ℕ) → ch.sessions j ≡ make_session

make_session-IsAwake : IsAwake make_session
make_session-IsAwake = idle-IsAwake make_session refl

-- In every run of the server with deadlines from a channel that nobody has joined, no wake-up is
-- lost: an output actor sleeps only while its session is open and its queue is empty, and one that
-- writes, writes the front of the queue. Each session that is subscribed is open, reads, has an
-- output actor, and has both deadlines checked.
pub Reach-IsSoundAt : {ch t : Channel} → IsNew ch → Reach ch t → (j : ℕ) → IsSoundAt t j
Reach-IsSoundAt {ch} new here j =
    (rw (new.fresh j) make_session-IsAwake, λ k. absurd (cc (new.nobody, k)))
Reach-IsSoundAt new (next {t} {u} r st) j = Step-IsSound t u (Reach-IsSoundAt new r) st j
