-- ===== src/Asio/Porthopper.antt =====
-- doc_searcher/data/input/html/boost_asio/example/porthopper: the messages of protocol.hpp and the
-- subscriptions of server.cpp. Streams in hexadecimal and the sine are arguments.
pub mod RoundTrip
pub mod Subscribing
pub mod Client
pub mod Hopping
pub mod Handover
pub mod Control
use boost.Prelude.{
  ◌+◌, ◌*◌, ◌%◌, ◌^◌, ℕ, zero, suc, Bool, true, false, not, ◌&&◌, Option, List, [], ◌∷◌, ◌++◌, none,
  some, ◌==◌, if◌then◌else◌, Bytes, take, drop, filter_b, map,
}
use boost.Asio.Stream.{Hex, setw}

abbrev pub encoded_port_size : ℕ
encoded_port_size = 4

abbrev pub control_request_size : ℕ
control_request_size = encoded_port_size * 2

abbrev pub payload_size : ℕ
payload_size = 32

abbrev pub encoded_number_size : ℕ
encoded_number_size = 8

abbrev pub frame_size : ℕ
frame_size = encoded_number_size + payload_size

-- A number that was not read stays what it was, zero.
abbrev pub or_zero : Option ℕ → ℕ
or_zero none = 0
or_zero (some n) = n

module _ (hex : Hex) where
  -- The constructor with two ports, as the bytes of `data_`; an `ostrstream` stops at its end.
  unfoldable pub control_request : (old_port_number new_port_number : ℕ) → Bytes
  unfolding setw
  control_request old_port_number new_port_number = take control_request_size (
      setw encoded_port_size (hex.to_hex old_port_number)
      ++ setw encoded_port_size (hex.to_hex new_port_number))

  abbrev pub start : (port : ℕ) → Bytes
  start port = control_request 0 port

  abbrev pub stop : (port : ℕ) → Bytes
  stop port = control_request port 0

  abbrev pub change : (old_port new_port : ℕ) → Bytes
  change old_port new_port = control_request old_port new_port

  unfoldable pub old_port : (data_ : Bytes) → ℕ
  old_port data_ = or_zero (hex.read_short (take encoded_port_size data_))

  unfoldable pub new_port : (data_ : Bytes) → ℕ
  new_port data_ = or_zero (hex.read_short (take encoded_port_size (drop encoded_port_size data_)))

  -- The constructor of a frame.
  unfoldable pub frame : (frame_number : ℕ) → (payload_data : Bytes) → Bytes
  unfolding setw
  frame frame_number payload_data = take frame_size (
      setw encoded_number_size (hex.to_hex frame_number)
      ++ setw payload_size (take payload_size payload_data))

  unfoldable pub number : (data_ : Bytes) → ℕ
  number data_ = or_zero (hex.read_long (take encoded_number_size data_))

unfoldable pub payload : (data_ : Bytes) → Bytes
payload data_ = take payload_size (drop encoded_number_size data_)

-- `udp::endpoint`.
pub record Endpoint : Type 0 where
  pub address : ℕ
  pub port : ℕ

abbrev pub same : Endpoint → Endpoint → Bool
same a b = (a.address == b.address) && (a.port == b.port)

-- The set of subscribers, in no order that the server relies on.
abbrev pub has : Endpoint → List Endpoint → Bool
has e [] = false
has e (f ∷ fs) = if same e f then true else has e fs

abbrev pub insert : Endpoint → List Endpoint → List Endpoint
insert e fs = if has e fs then fs else e ∷ fs

abbrev pub erase : Endpoint → List Endpoint → List Endpoint
erase e = filter_b (λ f. not (same e f))

abbrev pub remove_old : (address : ℕ) → (port : ℕ) → List Endpoint → List Endpoint
remove_old address zero subscribers = subscribers
remove_old address (suc port) subscribers =
    erase (record { address = address; port = suc port }) subscribers

abbrev pub add_new : (address : ℕ) → (port : ℕ) → List Endpoint → List Endpoint
add_new address zero subscribers = subscribers
add_new address (suc port) subscribers =
    insert (record { address = address; port = suc port }) subscribers

-- So many bytes of the payload are left to make, from this index on.
unfoldable pub make_payload : (left : ℕ) → (i char_index : ℕ) → Bytes
make_payload zero i char_index = []
make_payload (suc left) i char_index =
    (if i == char_index then b'*' else b'.') ∷ make_payload left (i + 1) char_index

-- `server`, with the frames that it has sent.
pub record Server : Type 0 where
  pub subscribers_ : List Endpoint
  pub next_frame_number_ : ℕ
  pub sent : List (Endpoint × Bytes)

module _ (hex : Hex) where
  -- With the address of the other end, or none where the socket has none any more.
  unfoldable pub handle_control_request_timer :
      (remote : Option ℕ) → (request : Bytes) → Server → Server
  unfolding old_port new_port
  handle_control_request_timer none request s = s
  handle_control_request_timer (some address) request s = record s {
    subscribers_ =
        add_new address (new_port hex request)
          (remove_old address (old_port hex request) s.subscribers_);
  }

  unfoldable pub handle_timer : (char_index : ℕ → ℕ) → Server → Server
  unfolding make_payload frame
  handle_timer char_index s =
      let f =
        frame hex s.next_frame_number_
          (make_payload payload_size 0 (char_index s.next_frame_number_)) in
      record s {
        next_frame_number_ = (s.next_frame_number_ + 1) % 2 ^ 64;
        sent = s.sent ++ map (λ e. (e, f)) s.subscribers_;
      }
