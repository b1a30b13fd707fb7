-- ===== src/Asio/Icmp/Ipv4Header.antt =====
-- doc_searcher/data/input/html/boost_asio/example/icmp/ipv4_header.hpp: an IPv4 header read from a
-- stream. `n >> 4` is `n / 16`, a mask of low bits is a remainder, `n & 0x40` is the bit of weight
-- 64.
use boost.Prelude.{
  ◌+◌, ◌-◌, ◌*◌, ◌/◌, ◌%◌, ◌^◌, ℕ, Bool, true, ◌||◌, [], ◌∷◌, ◌++◌, ◌==◌, ltb, if◌then◌else◌, Bytes,
  length, take, drop,
}

-- `std::istream`: the bytes ahead and `failbit`.
pub record Stream : Type 0 where
  pub ahead : Bytes
  pub failed : Bool

-- `is.read(p, n)`: nothing on a failed stream; too few bytes are taken and fail.
unfoldable pub read : Stream → ℕ → Bytes × Stream
read is n =
    if is.failed
    then ([], is)
    else (take n is.ahead, record { ahead = drop n is.ahead; failed = ltb (length is.ahead) n })

-- The byte of `rep_` at a place; `rep_` was filled with zeros.
abbrev pub byte : Bytes → ℕ → ℕ
byte [] i = 0
byte (c ∷ rep) i = if i == 0 then c else byte rep (i - 1)

unfoldable pub version : Bytes → ℕ
version rep = byte rep 0 / 16 % 16

unfoldable pub header_length : Bytes → ℕ
header_length rep = byte rep 0 % 16 * 4

unfoldable pub type_of_service : Bytes → ℕ
type_of_service rep = byte rep 1

unfoldable pub total_length : Bytes → ℕ
total_length rep = (byte rep 2 * 256 + byte rep 3) % 2 ^ 16

unfoldable pub identification : Bytes → ℕ
identification rep = (byte rep 4 * 256 + byte rep 5) % 2 ^ 16

unfoldable pub dont_fragment : Bytes → Bool
dont_fragment rep = byte rep 6 / 64 % 2 == 1

unfoldable pub more_fragments : Bytes → Bool
more_fragments rep = byte rep 6 / 32 % 2 == 1

unfoldable pub fragment_offset : Bytes → ℕ
fragment_offset rep = (byte rep 6 * 256 + byte rep 7) % 2 ^ 13

unfoldable pub time_to_live : Bytes → ℕ
time_to_live rep = byte rep 8

unfoldable pub protocol : Bytes → ℕ
protocol rep = byte rep 9

unfoldable pub header_checksum : Bytes → ℕ
header_checksum rep = (byte rep 10 * 256 + byte rep 11) % 2 ^ 16

-- The four bytes of an address.
unfoldable pub source_address : Bytes → Bytes
source_address rep = byte rep 12 ∷ byte rep 13 ∷ byte rep 14 ∷ byte rep 15 ∷ []

unfoldable pub destination_address : Bytes → Bytes
destination_address rep = byte rep 16 ∷ byte rep 17 ∷ byte rep 18 ∷ byte rep 19 ∷ []

-- `operator>>` into a new header: the bytes of `rep_` that were written, and the stream.
unfoldable pub extract : Stream → Bytes × Stream
unfolding read version header_length
extract is =
    let (rep, behind) = read is 20 in
    let checked = if version rep == 4 then behind else record behind { failed = true } in
    if ltb (header_length rep) 20 || ltb 60 (header_length rep)
    then (rep, record checked { failed = true })
    else let (options, end) = read checked (header_length rep - 20) in (rep ++ options, end)
