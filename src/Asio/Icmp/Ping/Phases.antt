-- ===== src/Asio/Icmp/Ping/Phases.antt =====
-- Where the pinger stands between two requests.
use boost.Prelude.{◌+◌, ◌≡◌, ◌≤◌, ◌<◌, ◌⊎◌, inl, inr, ℕ, List, [], ◌∷◌, ◌++◌, arith}
use boost.Asio.Icmp.Ping.{Task, timeout, sending, Pinger}

-- Where the pinger stands, by its waits and by the handlers of cancelled waits: a request is out, it
-- was answered, the next one waits for its second, or that wait was cancelled, long after the second.
unfoldable pub Phase : ℕ → Pinger → List Task → List Task → Type 0
Phase now p (timeout ∷ []) [] = (p.num_replies ≡ 0) × (p.expiry ≡ p.time_sent + 5000000)
Phase now p [] (timeout ∷ []) = 0 < p.num_replies
Phase now p (sending ∷ []) [] =
    (p.expiry ≡ p.time_sent + 1000000) × ((0 < p.num_replies) ⊎ (p.time_sent + 5000000 ≤ now))
Phase now p [] (sending ∷ []) = p.time_sent + 5000000 ≤ now
Phase now p _ _ = ⊥

-- The first reply cancels the wait.
pub first-Phase :
    (earlier now : ℕ) (p q : Pinger) (waits cancelled : List Task)
    → earlier ≤ now
    → q.time_sent ≡ p.time_sent
    → p.num_replies ≡ 0
    → 0 < q.num_replies
    → Phase earlier p waits cancelled
    → Phase now q [] (cancelled ++ waits)
unfolding Phase
first-Phase earlier now p q (timeout ∷ []) [] later same zero some x = some
first-Phase earlier now p q [] (timeout ∷ []) later same zero some x = some
first-Phase earlier now p q (sending ∷ []) [] later same zero some (expiry, inl more) =
    absurd (omega arith)
first-Phase earlier now p q (sending ∷ []) [] later same zero some (expiry, inr late) = omega arith
first-Phase earlier now p q [] (sending ∷ []) later same zero some x = omega arith
first-Phase earlier now p q _ _ later same zero some x = elim x [ ]

-- Another one does not.
pub again-Phase :
    (earlier now : ℕ) (p q : Pinger) (waits cancelled : List Task)
    → earlier ≤ now
    → q.time_sent ≡ p.time_sent
    → q.expiry ≡ p.expiry
    → 0 < p.num_replies
    → 0 < q.num_replies
    → Phase earlier p waits cancelled
    → Phase now q waits cancelled
unfolding Phase
again-Phase earlier now p q (timeout ∷ []) [] later same still more some (zero, expiry) =
    absurd (omega (arith, zero))
again-Phase earlier now p q [] (timeout ∷ []) later same still more some x = some
again-Phase earlier now p q (sending ∷ []) [] later same still more some (expiry, _) =
    (omega (arith, expiry), inl some)
again-Phase earlier now p q [] (sending ∷ []) later same still more some x = omega (arith, x)
again-Phase earlier now p q _ _ later same still more some x = elim x [ ]

pub later-Phase :
    (earlier now : ℕ) (p q : Pinger) (waits cancelled : List Task)
    → earlier ≤ now
    → q.time_sent ≡ p.time_sent
    → q.expiry ≡ p.expiry
    → q.num_replies ≡ p.num_replies
    → Phase earlier p waits cancelled
    → Phase now q waits cancelled
unfolding Phase
later-Phase earlier now p q (timeout ∷ []) [] later same still count (zero, expiry) =
    (omega (arith, zero), omega (arith, expiry))
later-Phase earlier now p q [] (timeout ∷ []) later same still count x = omega (arith, x)
later-Phase earlier now p q (sending ∷ []) [] later same still count (expiry, inl more) =
    (omega (arith, expiry), inl (omega (arith, more)))
later-Phase earlier now p q (sending ∷ []) [] later same still count (expiry, inr late) =
    (omega (arith, expiry), inr (omega (arith, late)))
later-Phase earlier now p q [] (sending ∷ []) later same still count x = omega (arith, x)
later-Phase earlier now p q _ _ later same still count x = elim x [ ]
