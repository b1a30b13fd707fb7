-- ===== src/Asio/Icmp/Ping/Spacing.antt =====
-- When the pinger sends.
use boost.Prelude.{
  ◌+◌, ◌%◌, ◌^◌, ◌≡◌, ◌≤◌, ◌<◌, ◌⊎◌, inl, inr, refl, subst, ℕ, suc, false, List, [], ◌∷◌, ◌++◌,
  ◌==◌, Bytes, Bool-cases, arith, if_induct,
}
use boost.Asio.Icmp.Ping.{
  Task, timeout, sending, Pinger, cancel, wait_until, request, start_send, handle_timeout,
  start_receive, count_reply, handle_receive, pinger,
}
use boost.Asio.Icmp.IcmpHeader.{IcmpHeader, extract_header}
use boost.Asio.Icmp.Ipv4Header.{extract}
use boost.Asio.Icmp.Ping.Runs.{Runs, created, expired, aborted, received, perform}
use boost.Asio.Icmp.Ping.Phases.{Phase, first-Phase, again-Phase, later-Phase}

-- Requests with the numbers 1, 2, 3 … on 16 bits, the newest first, each at least a second after
-- the one before it. The arguments are the time and the number of the newest.
pub data IsPaced (id : ℕ) : ℕ → ℕ → List (ℕ × Bytes) → Type 0 where
  first : (now : ℕ) → IsPaced id now 1 ((now, request id 1) ∷ [])
  next :
      {earlier number : ℕ} {sent : List (ℕ × Bytes)} (now : ℕ)
      → IsPaced id earlier number sent
      → earlier + 1000000 ≤ now
      → IsPaced id now ((number + 1) % 2 ^ 16) ((now, request id ((number + 1) % 2 ^ 16)) ∷ sent)

record IsPinging (id n now : ℕ) (p : Pinger) : Type 0 where
  replies : p.num_replies ≤ n
  ready : p.reply_buffer ≡ []
  phase : Phase now p p.waits p.cancelled
  paced : IsPaced id p.time_sent p.expected p.sent

start_send-IsPinging :
    (id n now : ℕ) (p : Pinger)
    → p.waits ≡ []
    → p.cancelled ≡ []
    → p.reply_buffer ≡ []
    → IsPaced id p.time_sent p.expected p.sent
    → p.time_sent + 1000000 ≤ now
    → IsPinging id n now (start_send id now p)
unfolding start_send wait_until Phase
start_send-IsPinging id n now p w c b paced late = record {
  replies = omega arith;
  ready = b;
  phase = rw (w, c) (refl, refl);
  paced = next now paced late;
}

handle_timeout-IsPinging :
    (id n now : ℕ) (p : Pinger)
    → p.waits ≡ []
    → p.cancelled ≡ []
    → p.reply_buffer ≡ []
    → IsPaced id p.time_sent p.expected p.sent
    → p.num_replies ≤ n
    → (0 < p.num_replies) ⊎ (p.time_sent + 5000000 ≤ now)
    → IsPinging id n now (handle_timeout p)
unfolding handle_timeout wait_until Phase
handle_timeout-IsPinging id n now p w c b paced few why = record {
  replies = few;
  ready = b;
  phase = rw (w, c) (refl, why);
  paced = paced;
}

-- A wait that has expired.
expired-IsPinging :
    (id n earlier now : ℕ) (p : Pinger) (task : Task) (rest cancelled : List Task)
    → IsPinging id n earlier p
    → p.expiry ≤ now
    → earlier ≤ now
    → p.cancelled ≡ cancelled
    → Phase earlier p (task ∷ rest) cancelled
    → IsPinging id (suc n) now (perform id now task (record p { waits = rest }))
unfolding Phase
expired-IsPinging id n earlier now p timeout [] [] h passed later c (zero, expiry) =
    handle_timeout-IsPinging id (suc n) now (record p { waits = [] }) refl c h.ready h.paced
      (omega (arith, h.replies)) (inr (omega (arith, expiry)))
expired-IsPinging id n earlier now p sending [] [] h passed later c (expiry, _) =
    start_send-IsPinging id (suc n) now (record p { waits = [] }) refl c h.ready h.paced
      (omega (arith, expiry))
expired-IsPinging id n earlier now p _ _ _ h passed later c x = elim x [ ]

aborted-IsPinging :
    (id n earlier now : ℕ) (p : Pinger) (task : Task) (rest waits : List Task)
    → IsPinging id n earlier p
    → earlier ≤ now
    → p.waits ≡ waits
    → Phase earlier p waits (task ∷ rest)
    → IsPinging id (suc n) now (perform id now task (record p { cancelled = rest }))
unfolding Phase
aborted-IsPinging id n earlier now p timeout [] [] h later w some =
    handle_timeout-IsPinging id (suc n) now (record p { cancelled = [] }) w refl h.ready h.paced
      (omega (arith, h.replies)) (inl some)
aborted-IsPinging id n earlier now p sending [] [] h later w due =
    start_send-IsPinging id (suc n) now (record p { cancelled = [] }) w refl h.ready h.paced
      (omega (arith, due))
aborted-IsPinging id n earlier now p timeout (_ ∷ _) [] h later w x = elim x [ ]
aborted-IsPinging id n earlier now p sending (_ ∷ _) [] h later w x = elim x [ ]
aborted-IsPinging id n earlier now p _ _ (timeout ∷ []) h later w x = elim x [ ]
aborted-IsPinging id n earlier now p _ _ (sending ∷ []) h later w x = elim x [ ]
aborted-IsPinging id n earlier now p _ _ (timeout ∷ (_ ∷ _)) h later w x = elim x [ ]
aborted-IsPinging id n earlier now p _ _ (sending ∷ (_ ∷ _)) h later w x = elim x [ ]

count_reply-IsPinging :
    (id n earlier now size : ℕ) (rep : Bytes) (h : IcmpHeader) (p : Pinger)
    → suc n < 2 ^ 64
    → earlier ≤ now
    → IsPinging id n earlier p
    → IsPinging id (suc n) now (start_receive (count_reply now size rep h p))
unfolding count_reply cancel start_receive
count_reply-IsPinging id n earlier now size rep h p small later i =
    let some : 0 < (p.num_replies + 1) % 2 ^ 64 = omega (arith, i.replies) in
    let few : (p.num_replies + 1) % 2 ^ 64 ≤ suc n = omega (arith, i.replies) in
    elim (Bool-cases (p.num_replies == 0)) [
      | inl e ↦ rw e (record {
        replies = few;
        ready = refl;
        phase =
            first-Phase earlier now p _ p.waits p.cancelled later refl (ground arith) some i.phase;
        paced = i.paced;
      })
      | inr e ↦ rw e (record {
        replies = few;
        ready = refl;
        phase =
            again-Phase earlier now p _ p.waits p.cancelled later refl refl (ground arith) some
              i.phase;
        paced = i.paced;
      })
    ]

handle_receive-IsPinging :
    (id n earlier now : ℕ) (packet : Bytes) (p : Pinger)
    → suc n < 2 ^ 64
    → earlier ≤ now
    → IsPinging id n earlier p
    → IsPinging id (suc n) now (handle_receive id now packet p)
unfolding handle_receive start_receive
handle_receive-IsPinging id n earlier now packet p small later i =
    let taken = extract (record { ahead = p.reply_buffer ++ packet; failed = false }) in
    if_induct (λ q. IsPinging id (suc n) now (start_receive q)) _ _ _
      (λ _.
        count_reply-IsPinging id n earlier now _ taken.0 (extract_header taken.1).0 p small later i)
      (λ _. record {
        replies = omega (arith, i.replies);
        ready = refl;
        phase = later-Phase earlier now p _ p.waits p.cancelled later refl refl refl i.phase;
        paced = i.paced;
      })

Runs-IsPinging : {id n now : ℕ} {p : Pinger} → n < 2 ^ 64 → Runs id n now p → IsPinging id n now p
unfolding pinger start_send wait_until start_receive Phase
Runs-IsPinging {id} small (created now) = record {
  replies = omega arith;
  ready = refl;
  phase = (refl, refl);
  paced = first now;
}
Runs-IsPinging {id} small (expired {n} {earlier} {p} now task rest r later passed w) =
    let i = Runs-IsPinging (omega arith) r in
    expired-IsPinging id n earlier now p task rest p.cancelled i passed later refl
      (subst (λ l. Phase earlier p l p.cancelled) w i.phase)
Runs-IsPinging {id} small (aborted {n} {earlier} {p} now task rest r later c) =
    let i = Runs-IsPinging (omega arith) r in
    aborted-IsPinging id n earlier now p task rest p.waits i later refl
      (subst (λ l. Phase earlier p p.waits l) c i.phase)
Runs-IsPinging {id} small (received {n} {earlier} {p} now packet r later) =
    handle_receive-IsPinging id n earlier now packet p small later (Runs-IsPinging (omega arith) r)

-- In every run of the pinger with fewer than 2^64 calls of handlers, on a clock that does not go
-- back, whatever is received and whenever a wait expires or is cancelled, the requests that were
-- sent have the numbers 1, 2, 3 and so on, on 16 bits, and each was sent at least a second after
-- the one before it.
pub pinger-IsPaced :
    {id n now : ℕ} {p : Pinger}
    → n < 2 ^ 64
    → Runs id n now p
    → IsPaced id p.time_sent p.expected p.sent
pinger-IsPaced small r = (Runs-IsPinging small r).paced

pub pinger-ready : {id n now : ℕ} {p : Pinger} → n < 2 ^ 64 → Runs id n now p → p.reply_buffer ≡ []
pinger-ready small r = (Runs-IsPinging small r).ready
