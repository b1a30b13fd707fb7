-- ===== src/Asio/Porthopper/Handover.antt =====
-- The subscriptions that a client leaves at the server.
use boost.Prelude.{
  ◌≡◌, ◌<◌, refl, ap, ◌∙◌, ℕ, zero, suc, Bool, true, false, ◌&&◌, not, List, [], ◌∷◌, ◌++◌, ◌==◌,
  some, if◌then◌else◌, Bytes, eq_refl, arith,
}
use boost.Asio.Stream.{Hex, IsHex}
use boost.Asio.Porthopper.{change, Server, has, handle_control_request_timer}
use boost.Asio.Porthopper.Subscribing.{is_at, has-handle_control_request_timer}
use boost.Asio.Porthopper.Client.{Client}
use boost.Asio.Porthopper.Hopping.{IsPort, IsAsked, started, moved, Reach, Reach-IsAsked}

-- The server when it has handled requests from an address.
pub handle_requests : Hex → ℕ → List Bytes → Server → Server
handle_requests hex address [] s = s
handle_requests hex address (request ∷ requests) s =
    handle_requests hex address requests (handle_control_request_timer hex (some address) request s)

-- No port of this address is subscribed.
abbrev pub IsUnknown : ℕ → Server → Type 0
IsUnknown address s =
    (port : ℕ) → has (record { address = address; port = port }) s.subscribers_ ≡ false

-- Of the ports of this address exactly this one is subscribed.
pub IsMoved : ℕ → ℕ → Server → Type 0
IsMoved address p s =
    (port : ℕ) → has (record { address = address; port = port }) s.subscribers_ ≡ (port == p)

handle_requests-append :
    (hex : Hex) (address : ℕ) (requests more : List Bytes) (s : Server)
    → handle_requests hex address (requests ++ more) s
      ≡ handle_requests hex address more (handle_requests hex address requests s)
unfolding handle_requests
handle_requests-append hex address [] more s = refl
handle_requests-append hex address (r ∷ requests) more s =
    handle_requests-append hex address requests more
      (handle_control_request_timer hex (some address) r s)

-- A port that is a client's own.
is_at_port :
    (address port p : ℕ)
    → 0 < p
    → is_at (record { address = address; port = port }) address p ≡ (port == p)
is_at_port address port zero h = absurd (omega arith)
is_at_port address port (suc p) h = ground (arith, eq_refl address)

-- Behind a request to move, where one port was subscribed.
one_port : (a b : Bool) → (if a then true else b && not b) ≡ a
one_port true b = refl
one_port false true = refl
one_port false false = refl

asked-IsPort : (hex : Hex) {p : ℕ} {requests : List Bytes} → IsAsked hex p requests → IsPort p
asked-IsPort hex (started p h) = h
asked-IsPort hex (moved q h asked) = h

IsAsked-IsMoved :
    (hex : Hex) (laws : IsHex hex) (address : ℕ) (s : Server) {p : ℕ} {requests : List Bytes}
    → IsUnknown address s
    → IsAsked hex p requests
    → IsMoved address p (handle_requests hex address requests s)
unfolding IsMoved handle_requests
IsAsked-IsMoved hex laws address s unknown (started p (some_port, small)) = λ port.
    has-handle_control_request_timer hex laws (record { address = address; port = port }) address 0
      p s (omega arith) small
    ∙ rw (is_at_port address port p some_port, unknown port) (one_port (port == p) false)
IsAsked-IsMoved hex laws address s unknown (moved {p} {requests} q (some_port, small) asked) =
    λ port.
      let before = handle_requests hex address requests s in
      let there = IsAsked-IsMoved hex laws address s unknown asked port in
      let (old_port, old_small) = asked-IsPort hex asked in
      ap (λ (t : Server). has (record { address = address; port = port }) t.subscribers_)
        (handle_requests-append hex address requests (change hex p q ∷ []) s)
      ∙ has-handle_control_request_timer hex laws (record { address = address; port = port })
          address p q before old_small small
      ∙ rw (is_at_port address port q some_port, is_at_port address port p old_port, there)
          (one_port (port == q) (port == p))

-- If streams write and read hexadecimal numbers as documented, then in every run of the client of
-- the port hopper, with ports of 16 bits other than zero, its requests start at one port and move
-- from each to the next; and when a server that knows no port of the client's address has handled
-- them in order, exactly the port of the last request is subscribed at that address.
pub handle_requests-IsMoved :
    (hex : Hex) (laws : IsHex hex) (address : ℕ) (s : Server) {c : Client}
    → IsUnknown address s
    → Reach hex c
    → (p : ℕ) × IsAsked hex p c.requests
      × IsMoved address p (handle_requests hex address c.requests s)
handle_requests-IsMoved hex laws address s unknown r =
    let (p, asked) = Reach-IsAsked hex r in
    (p, asked, IsAsked-IsMoved hex laws address s unknown asked)
