-- ===== src/Asio/Timeouts/Alive.antt =====
-- What the output actor leaves of a session.
use boost.Prelude.{◌≡◌, refl, sym, ◌∙◌, ℕ, true, not, List, [], ◌∷◌, Bytes, if_induct}
use boost.Asio.Timeouts.{Session, start_write, await_queue, await_output}
use boost.Asio.Timeouts.Waking.{IsAwake, IsActive, IsAlive, await_queue_busy, not-true}

-- A change that leaves the output alone.
pub same-IsAwake :
    (s t : Session)
    → t.is_open ≡ s.is_open
    → t.output ≡ s.output
    → t.output_queue ≡ s.output_queue
    → IsAwake s
    → IsAwake t
same-IsAwake s t o e q h = record {
  asleep_open = λ f. o ∙ h.asleep_open (sym e ∙ f);
  asleep_empty = λ f. q ∙ h.asleep_empty (sym e ∙ f);
  front = λ bytes f. let (rest, same) = h.front bytes (sym e ∙ f) in (rest, q ∙ same);
}

pub same-IsActive :
    (s t : Session)
    → t.is_open ≡ s.is_open
    → t.is_checking_input ≡ s.is_checking_input
    → t.is_checking_output ≡ s.is_checking_output
    → t.output ≡ s.output
    → IsActive s
    → IsActive t
same-IsActive s t o i q e h = record {
  is_open = o ∙ h.is_open;
  checks_input = i ∙ h.checks_input;
  checks_output = q ∙ h.checks_output;
  has_output = λ f. h.has_output (sym e ∙ f);
}

-- The output actor of an open session goes on.
await_queue-IsActive :
    (now : ℕ) (l : List Bytes) (s : Session)
    → s.is_open ≡ true
    → s.is_checking_input ≡ true
    → s.is_checking_output ≡ true
    → IsActive (await_queue now l s)
unfolding start_write
await_queue-IsActive now [] s o i q = record {
  is_open = o;
  checks_input = i;
  checks_output = q;
  has_output = await_queue_busy now [] s;
}
await_queue-IsActive now (msg ∷ l) s o i q = record {
  is_open = o;
  checks_input = i;
  checks_output = q;
  has_output = await_queue_busy now (msg ∷ l) s;
}

await_queue-reads :
    (now : ℕ) (l : List Bytes) (s : Session) → (await_queue now l s).is_reading ≡ s.is_reading
unfolding start_write
await_queue-reads now [] s = refl
await_queue-reads now (msg ∷ l) s = refl

pub await_output-IsAlive :
    (now : ℕ) (s : Session)
    → s.is_open ≡ true
    → s.is_checking_input ≡ true
    → s.is_checking_output ≡ true
    → s.is_reading ≡ true
    → IsAlive (await_output now s)
unfolding await_output
await_output-IsAlive now s o i q r =
    if_induct IsAlive (not s.is_open) _ _ (λ e. absurd (cc (not-true s.is_open e, o)))
      (λ e. record {
        active = await_queue-IsActive now s.output_queue s o i q;
        reads = await_queue-reads now s.output_queue s ∙ r;
      })
