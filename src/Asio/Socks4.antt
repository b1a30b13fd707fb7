-- ===== src/Asio/Socks4.antt =====
-- doc_searcher/data/input/html/boost_asio/example/socks4/socks4.hpp: the messages of SOCKS 4. A
-- buffer over members is the bytes that they hold; reading into the buffers of a reply sets them.
pub mod RoundTrip
use boost.Prelude.{
  ◌+◌, ◌*◌, ◌/◌, ◌%◌, ◌^◌, ℕ, Bool, true, false, not, ◌&&◌, Option, List, [], ◌∷◌, ◌++◌, none, some,
  ◌==◌, if◌then◌else◌, Bytes, take, length,
}

abbrev pub version : ℕ
version = 0x04

pub data CommandType : Type 0 where
  connect bind : CommandType

abbrev pub command_byte : CommandType → ℕ
command_byte connect = 0x01
command_byte bind = 0x02

-- `address_v4::bytes_type`.
pub record Address : Type 0 where
  pub byte_0 : ℕ
  pub byte_1 : ℕ
  pub byte_2 : ℕ
  pub byte_3 : ℕ

abbrev pub address_bytes : Address → Bytes
address_bytes a = a.byte_0 ∷ a.byte_1 ∷ a.byte_2 ∷ a.byte_3 ∷ []

-- `tcp::endpoint`: an address of IPv4, none for another protocol, and a port.
pub record Endpoint : Type 0 where
  pub address : Option Address
  pub port : ℕ

-- `request`, by its members.
pub record Request : Type 0 where
  pub version_ : ℕ
  pub command_ : ℕ
  pub port_high_byte_ : ℕ
  pub port_low_byte_ : ℕ
  pub address_ : Address
  pub user_id_ : Bytes
  pub null_byte_ : ℕ

-- The constructor; `none` is the `system_error` for an endpoint that is not of IPv4.
unfoldable pub make_request : CommandType → Endpoint → Bytes → Option Request
make_request cmd endpoint user_id = elim endpoint.address [
  | none ↦ none
  | some address ↦ some (record {
    version_ = version;
    command_ = command_byte cmd;
    port_high_byte_ = endpoint.port / 256 % 256;
    port_low_byte_ = endpoint.port % 256;
    address_ = address;
    user_id_ = user_id;
    null_byte_ = 0;
  })
]

-- The seven buffers of `request::buffers`.
unfoldable pub buffers : Request → List Bytes
buffers r =
    (r.version_ ∷ [])
    ∷ (r.command_ ∷ [])
    ∷ (r.port_high_byte_ ∷ [])
    ∷ (r.port_low_byte_ ∷ [])
    ∷ address_bytes r.address_
    ∷ r.user_id_
    ∷ (r.null_byte_ ∷ [])
    ∷ []

-- `reply`, by its members.
pub record Reply : Type 0 where
  pub null_byte_ : ℕ
  pub status_ : ℕ
  pub port_high_byte_ : ℕ
  pub port_low_byte_ : ℕ
  pub address_ : Address

-- A read into the five buffers of `reply::buffers`, which have eight bytes; none where there are
-- fewer bytes.
unfoldable pub read_reply : Bytes → Option Reply
read_reply (null_byte ∷ status ∷ high ∷ low ∷ a ∷ b ∷ c ∷ d ∷ rest) = some (record {
  null_byte_ = null_byte;
  status_ = status;
  port_high_byte_ = high;
  port_low_byte_ = low;
  address_ = record { byte_0 = a; byte_1 = b; byte_2 = c; byte_3 = d };
})
read_reply _ = none

abbrev pub request_granted : ℕ
request_granted = 0x5a

unfoldable pub success : Reply → Bool
success r = r.null_byte_ == 0 && r.status_ == request_granted

-- `endpoint`. Both terms of the `|` have no bit in common, so it is a sum; the high byte, shifted in
-- 16 bits, has no bit outside of the mask.
unfoldable pub endpoint : Reply → Endpoint
endpoint r = record {
  address = some r.address_;
  port = r.port_high_byte_ * 256 % 2 ^ 16 + r.port_low_byte_;
}
