-- ===== src/Asio/Porthopper/Subscribing.antt =====
-- Who is subscribed behind a control request.
use boost.Prelude.{
  ◌^◌, ◌≡◌, ◌<◌, refl, ap, ◌∙◌, ℕ, zero, suc, Bool, true, false, not, ◌&&◌, List, [], ◌∷◌, some,
  if◌then◌else◌, arith, Bool-cases, inl, inr,
}
use boost.Asio.Stream.{Hex, IsHex}
use boost.Asio.Porthopper.{
  control_request, Endpoint, same, has, insert, erase, Server, remove_old, add_new,
  handle_control_request_timer,
}
use boost.Asio.Porthopper.RoundTrip.{ports-control_request}

has-same : (a b : Endpoint) (fs : List Endpoint) → same a b ≡ true → has a fs ≡ has b fs
has-same a b [] h = refl
has-same a b (f ∷ fs) h = let rest = has-same a b fs h in ground (arith, rest)

has-erase : (a b : Endpoint) (fs : List Endpoint) → has a (erase b fs) ≡ has a fs && not (same a b)
has-erase a b [] = refl
has-erase a b (f ∷ fs) = let rest = has-erase a b fs in ground (arith, rest)

has-insert :
    (a b : Endpoint) (fs : List Endpoint)
    → has a (insert b fs) ≡ (if same a b then true else has a fs)
has-insert a b fs = let alike = has-same a b fs in ground (arith, alike)

-- The endpoint is this port at this address; port zero stands for no port.
abbrev pub is_at : Endpoint → (address port : ℕ) → Bool
is_at e address zero = false
is_at e address (suc port) = same e (record { address = address; port = suc port })

has-remove_old :
    (e : Endpoint) (address port : ℕ) (fs : List Endpoint)
    → has e (remove_old address port fs) ≡ has e fs && not (is_at e address port)
has-remove_old e address zero fs = elim (Bool-cases (has e fs)) [ inl h ↦ rw h | inr h ↦ rw h ]
has-remove_old e address (suc port) fs =
    has-erase e (record { address = address; port = suc port }) fs

has-add_new :
    (e : Endpoint) (address port : ℕ) (fs : List Endpoint)
    → has e (add_new address port fs) ≡ (if is_at e address port then true else has e fs)
has-add_new e address zero fs = refl
has-add_new e address (suc port) fs =
    has-insert e (record { address = address; port = suc port }) fs

-- If streams write and read hexadecimal numbers as documented, then behind a control request of two
-- 16-bit ports an endpoint is subscribed exactly if it is the new port at the sender's address, or
-- was subscribed and is not the old port there; port zero stands for no port.
pub has-handle_control_request_timer :
    (hex : Hex)
    → IsHex hex
    → (e : Endpoint) (address old new : ℕ) (s : Server) → old < 2 ^ 16
    → new < 2 ^ 16
    → has e
        (handle_control_request_timer hex
          (some address)
          (control_request hex old new)
          s).subscribers_
      ≡ (if is_at e address new then true else has e s.subscribers_ && not (is_at e address old))
unfolding handle_control_request_timer
has-handle_control_request_timer hex laws e address old new s h k =
    let (first, second) = ports-control_request hex laws old new h k in
    rw (first, second)
      (has-add_new e address new (remove_old address old s.subscribers_)
        ∙ ap (λ b. if is_at e address new then true else b)
            (has-remove_old e address old s.subscribers_))
