-- ===== src/Asio/Socks4/RoundTrip.antt =====
-- What a SOCKS 4 server sees of a request, and a client of its reply.
use boost.Prelude.{
  ◌+◌, ◌*◌, ◌/◌, ◌%◌, ◌^◌, ◌≡◌, ◌<◌, refl, ap, ℕ, true, List, [], ◌∷◌, ◌++◌, some, Bytes, arith,
}
use boost.Asio.Socks4.{
  version, CommandType, command_byte, Address, address_bytes, Request, make_request, buffers, Reply,
  read_reply, request_granted, success, endpoint,
}

abbrev pub gathered : List Bytes → Bytes
gathered [] = []
gathered (b ∷ bs) = b ++ gathered bs

-- The reply that grants a request to an endpoint.
abbrev pub granted : Address → ℕ → Bytes
granted address port = 0 ∷ request_granted ∷ port / 256 ∷ port % 256 ∷ address_bytes address

-- From the bytes of a reply that grants a request, with a port of 16 bits, a client reads a success
-- and the endpoint.
pub read_reply-granted :
    (address : Address) (port : ℕ) (rest : Bytes)
    → port < 65536
    → (r : Reply) × (read_reply (granted address port ++ rest) ≡ some r)
      × (success r ≡ true)
      × (endpoint r ≡ record { address = some address; port = port })
unfolding read_reply success endpoint
read_reply-granted address port rest h =
    let port_back : port / 256 * 256 % 2 ^ 16 + port % 256 ≡ port = omega arith in
    (_, refl, refl, ap (λ p. record { address = some address; port = p }) port_back)

-- A request to an endpoint of IPv4 with a port of 16 bits is made, and its buffers are the version,
-- the command, the two bytes of the port with the high one first, the address, the user and a zero
-- byte.
pub buffers-make_request :
    (cmd : CommandType) (address : Address) (port : ℕ) (user_id : Bytes)
    → port < 65536
    → (r : Request) × (high : ℕ) × (low : ℕ) × (make_request cmd
          (record { address = some address; port = port })
          user_id
        ≡ some r)
      × (gathered (buffers r)
          ≡ version
            ∷ command_byte cmd
            ∷ high
            ∷ low
            ∷ (address_bytes address ++ (user_id ++ 0 ∷ [])))
      × (high * 256 + low ≡ port)
unfolding make_request buffers
buffers-make_request cmd address port user_id h = (_, _, _, refl, refl, omega arith)
