-- ===== src/Asio/Porthopper/Hopping.antt =====
-- What the client shows, and what it asks of the server.
use boost.Prelude.{
  ◌-◌, ◌^◌, ◌≡◌, ◌≤◌, ◌<◌, refl, ◌∙◌, subst, ℕ, true, false, Option, List, [], ◌∷◌, ◌++◌, none,
  some, ltb, Bytes, if_induct, arith,
}
use boost.Asio.Connection.{ErrorCode, success, operation_aborted, failure}
use boost.Asio.Stream.{Hex}
use boost.Asio.Porthopper.{start, change, number}
use boost.Asio.Porthopper.Client.{
  Phase, receiving, moving, thrown, Client, listen, throw, connect, show_frame, renegotiate,
  receive, finish, settle, handle_control, handle_new, handle_old,
}

-- A port that a socket may be bound to.
abbrev pub IsPort : ℕ → Type 0
IsPort p = (0 < p) × (p < 2 ^ 16)

module _ (hex : Hex) where
  -- Frames whose numbers rise, from above one number up to another.
  abbrev pub IsRising : ℕ → List Bytes → ℕ → Type 0
  IsRising low [] high = low ≤ high
  IsRising low (f ∷ fs) high = (low < number hex f) × IsRising (number hex f) fs high

  IsRising-append :
      (low high : ℕ) (fs : List Bytes) (f : Bytes)
      → IsRising low fs high
      → high < number hex f
      → IsRising low (fs ++ f ∷ []) (number hex f)
  IsRising-append low high [] f h more = (omega arith, omega arith)
  IsRising-append low high (g ∷ fs) f (here, h) more =
      (here, IsRising-append (number hex g) high fs f h more)

  -- Requests that start at a port and move from each port to the next. The last of them is given.
  pub data IsAsked : ℕ → List Bytes → Type 0 where
    started : (p : ℕ) → IsPort p → IsAsked p (start hex p ∷ [])
    moved :
        {p : ℕ} {requests : List Bytes} (q : ℕ)
        → IsPort q
        → IsAsked p requests
        → IsAsked q (requests ++ change hex p q ∷ [])

  -- The port that was asked for last, by the phase.
  Asked : Phase → ℕ → List Bytes → Type 0
  Asked (receiving left) endpoint requests = IsAsked endpoint requests
  Asked (moving port _ _) endpoint requests = IsAsked port requests
  Asked thrown endpoint requests = (p : ℕ) × IsAsked p requests

  record IsGood (phase : Phase) (c : Client) : Type 0 where
    rising : IsRising 0 c.shown c.last_frame_number
    asked : Asked phase c.data_endpoint c.requests

  record IsHopping (c : Client) : Type 0 where
    good : IsGood c.phase c

  hopping : {c : Client} → IsGood c.phase c → IsHopping c
  hopping g = record { good = g }

  show_frame-IsHopping : (f : Bytes) (c : Client) → IsHopping c → IsHopping (show_frame hex f c)
  unfolding show_frame
  show_frame-IsHopping f c h =
      if_induct IsHopping (ltb c.last_frame_number (number hex f))
        (record c { last_frame_number = number hex f; shown = c.shown ++ f ∷ [] }) c
        (λ newer. record {
          good = record {
            rising =
                IsRising-append 0 c.last_frame_number c.shown f h.good.rising
                  (ground (arith, newer));
            asked = h.good.asked;
          };
        })
        (λ _. h)

  show_frame-phase : (f : Bytes) (c : Client) → (show_frame hex f c).phase ≡ c.phase
  unfolding show_frame
  show_frame-phase f c =
      if_induct (λ (d : Client). d.phase ≡ c.phase) (ltb c.last_frame_number (number hex f)) _ _
        (λ _. refl) (λ _. refl)

  -- A phase by which the port is known may end.
  throw-IsHopping : (phase : Phase) (c : Client) → IsGood phase c → IsHopping (throw c)
  unfolding Asked
  throw-IsHopping (receiving left) c g = record {
    good = record { rising = g.rising; asked = (c.data_endpoint, g.asked) };
  }
  throw-IsHopping (moving port a b) c g = record {
    good = record { rising = g.rising; asked = (port, g.asked) };
  }
  throw-IsHopping thrown c g = record { good = record { rising = g.rising; asked = g.asked } }

  finish-IsHopping :
      (port : ℕ) (e d : ErrorCode) (f1 : Bytes) (a : Option ErrorCode)
      (b : Option (ErrorCode × Bytes)) (c : Client)
      → IsGood (moving port a b) c
      → IsHopping (finish hex port e d f1 c)
  unfolding finish Asked
  finish-IsHopping port success success f1 a b c g =
      show_frame-IsHopping f1 _ (record { good = record { rising = g.rising; asked = g.asked } })
  finish-IsHopping port success operation_aborted f1 a b c g = throw-IsHopping (moving port a b) c g
  finish-IsHopping port success failure f1 a b c g = throw-IsHopping (moving port a b) c g
  finish-IsHopping port operation_aborted d f1 a b c g = throw-IsHopping (moving port a b) c g
  finish-IsHopping port failure d f1 a b c g = throw-IsHopping (moving port a b) c g

  settle-IsHopping :
      (phase : Phase) (c : Client) → c.phase ≡ phase → IsHopping c → IsHopping (settle hex phase c)
  unfolding settle
  settle-IsHopping (receiving left) c e h = h
  settle-IsHopping thrown c e h = h
  settle-IsHopping (moving port none b) c e h = h
  settle-IsHopping (moving port (some a) none) c e h = h
  settle-IsHopping (moving port (some a) (some (d, f1))) c e h =
      if_induct IsHopping c.is_receiving c (finish hex port a d f1 c) (λ _. h)
        (λ _.
          finish-IsHopping port a d f1 (some a) (some (d, f1)) c (subst (λ p. IsGood p c) e h.good))

  renegotiate-IsHopping :
      (left port : ℕ) (c : Client)
      → IsPort port
      → c.phase ≡ receiving left
      → IsHopping c
      → IsHopping (renegotiate hex port c)
  unfolding renegotiate Asked
  renegotiate-IsHopping left port c p e h =
      let asked = subst (λ ph. Asked ph c.data_endpoint c.requests) e h.good.asked in
      record { good = record { rising = h.good.rising; asked = moved port p asked } }

  receive-IsHopping :
      (left port : ℕ) (f : Bytes) (c : Client)
      → IsPort port
      → c.phase ≡ receiving left
      → IsHopping c
      → IsHopping (receive hex left port f c)
  unfolding receive Asked
  receive-IsHopping left port f c p e h =
      let next = show_frame hex f c in
      let shown : IsHopping next = show_frame-IsHopping f c h in
      let same : next.phase ≡ receiving left = show_frame-phase f c ∙ e in
      let good = subst (λ ph. IsGood ph next) same shown.good in
      if_induct IsHopping (ltb 1 left) (record next { phase = receiving (left - 1) })
        (renegotiate hex port next)
        (λ _. record { good = record { rising = good.rising; asked = good.asked } })
        (λ _. renegotiate-IsHopping left port next p same shown)

  -- A handler of a move only notes a result, and may find the move at its end.
  noted-IsHopping :
      (port : ℕ) (a b : Option ErrorCode) (x y : Option (ErrorCode × Bytes)) (socket : Option ℕ)
      (c : Client)
      → c.phase ≡ moving port a x
      → IsHopping c
      → IsHopping (
          settle hex (moving port b y) (record c { phase = moving port b y; data_socket = socket }))
  unfolding Asked
  noted-IsHopping port a b x y socket c e h =
      let good = subst (λ ph. IsGood ph c) e h.good in
      settle-IsHopping (moving port b y)
        (record c { phase = moving port b y; data_socket = socket }) refl
        (record { good = record { rising = good.rising; asked = good.asked } })

  handle_new-IsHopping :
      (port : ℕ) (a : Option ErrorCode) (e : ErrorCode) (f1 : Bytes) (c : Client)
      → c.phase ≡ moving port a none
      → IsHopping c
      → IsHopping (handle_new hex port a e f1 c)
  unfolding handle_new
  handle_new-IsHopping port a success f1 c e h =
      noted-IsHopping port a a none (some (success, f1)) none c e h
  handle_new-IsHopping port a operation_aborted f1 c e h =
      noted-IsHopping port a a none (some (operation_aborted, f1)) c.data_socket c e h
  handle_new-IsHopping port a failure f1 c e h =
      noted-IsHopping port a a none (some (failure, f1)) c.data_socket c e h

  handle_old-IsHopping :
      (e : ErrorCode) (f2 : Bytes) (c : Client) → IsHopping c → IsHopping (handle_old hex e f2 c)
  unfolding handle_old
  handle_old-IsHopping success f2 c h =
      let next = listen (show_frame hex f2 c) in
      settle-IsHopping next.phase next refl (record {
        good = record {
          rising = (show_frame-IsHopping f2 c h).good.rising;
          asked = (show_frame-IsHopping f2 c h).good.asked;
        };
      })
  handle_old-IsHopping operation_aborted f2 c h =
      settle-IsHopping c.phase (record c { is_receiving = false }) refl
        (record { good = record { rising = h.good.rising; asked = h.good.asked } })
  handle_old-IsHopping failure f2 c h =
      settle-IsHopping c.phase (record c { is_receiving = false }) refl
        (record { good = record { rising = h.good.rising; asked = h.good.asked } })

  -- What may come next: a frame on the socket, or an error, while the fifty are received; and in a
  -- move the end of the request, of the receive on the new socket, and of that on the old one.
  pub data Step (c : Client) : Client → Type 0 where
    was_received :
        (left port : ℕ) (f : Bytes)
        → c.phase ≡ receiving left
        → IsPort port
        → Step c (receive hex left port f c)
    not_received : (left : ℕ) → c.phase ≡ receiving left → Step c (throw c)
    was_asked :
        (port : ℕ) (new_data : Option (ErrorCode × Bytes)) (e : ErrorCode)
        → c.phase ≡ moving port none new_data
        → Step c (handle_control hex port new_data e c)
    came_new :
        (port : ℕ) (control_result : Option ErrorCode) (e : ErrorCode) (f1 : Bytes)
        → c.phase ≡ moving port control_result none
        → Step c (handle_new hex port control_result e f1 c)
    came_old : (e : ErrorCode) (f2 : Bytes) → c.is_receiving ≡ true → Step c (handle_old hex e f2 c)

  pub data Reach : Client → Type 0 where
    connected : (port : ℕ) → IsPort port → Reach (connect hex port)
    next : {c d : Client} → Reach c → Step c d → Reach d

  Step-IsHopping : {c d : Client} → Step c d → IsHopping c → IsHopping d
  unfolding handle_control
  Step-IsHopping {c} (was_received left port f e p) h = receive-IsHopping left port f c p e h
  Step-IsHopping {c} (not_received left e) h = throw-IsHopping c.phase c h.good
  Step-IsHopping {c} (was_asked port new_data e at) h =
      noted-IsHopping port none (some e) new_data new_data c.data_socket c at h
  Step-IsHopping {c} (came_new port a e f1 at) h = handle_new-IsHopping port a e f1 c at h
  Step-IsHopping {c} (came_old e f2 _) h = handle_old-IsHopping e f2 c h

  Reach-IsHopping : {c : Client} → Reach c → IsHopping c
  unfolding connect Asked
  Reach-IsHopping (connected port p) = record {
    good = record { rising = omega arith; asked = started port p };
  }
  Reach-IsHopping (next r s) = Step-IsHopping s (Reach-IsHopping r)

  Asked-port :
      (phase : Phase) (endpoint : ℕ) (requests : List Bytes)
      → Asked phase endpoint requests
      → (p : ℕ) × IsAsked p requests
  unfolding Asked
  Asked-port (receiving left) endpoint requests h = (endpoint, h)
  Asked-port (moving port a b) endpoint requests h = (port, h)
  Asked-port thrown endpoint requests h = h

  pub Reach-IsAsked : {c : Client} → Reach c → (p : ℕ) × IsAsked p c.requests
  Reach-IsAsked {c} r = Asked-port c.phase c.data_endpoint c.requests (Reach-IsHopping r).good.asked

  -- In every run of the client of the port hopper, also while frames come from both of its sockets,
  -- the numbers of the frames that it shows rise strictly and start above zero, so that none is
  -- shown twice, and none is above the last frame number.
  pub Reach-IsRising : {c : Client} → Reach c → IsRising 0 c.shown c.last_frame_number
  Reach-IsRising r = (Reach-IsHopping r).good.rising
