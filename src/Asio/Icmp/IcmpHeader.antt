-- ===== src/Asio/Icmp/IcmpHeader.antt =====
-- doc_searcher/data/input/html/boost_asio/example/icmp/icmp_header.hpp: an ICMP header as its eight
-- bytes, and the checksum. `n >> 8` is `n / 256`, `n & 0xFF` is `n % 256`; an `unsigned int` has 32
-- bits.
use boost.Prelude.{◌+◌, ◌-◌, ◌*◌, ◌/◌, ◌%◌, ◌^◌, ℕ, [], ◌∷◌, Bytes}
use boost.Asio.Icmp.Ipv4Header.{Stream, read, byte}

-- `rep_`.
pub record IcmpHeader : Type 0 where
  pub rep_0 : ℕ
  pub rep_1 : ℕ
  pub rep_2 : ℕ
  pub rep_3 : ℕ
  pub rep_4 : ℕ
  pub rep_5 : ℕ
  pub rep_6 : ℕ
  pub rep_7 : ℕ

-- `decode`: the `int` is cut to 16 bits.
abbrev pub decode : ℕ → ℕ → ℕ
decode high low = (high * 256 + low) % 2 ^ 16

-- The two bytes that `encode` writes.
abbrev pub high_byte : ℕ → ℕ
high_byte n = n / 256 % 256

abbrev pub low_byte : ℕ → ℕ
low_byte n = n % 256

-- The constructor.
abbrev pub icmp_header : IcmpHeader
icmp_header = record {
  rep_0 = 0;
  rep_1 = 0;
  rep_2 = 0;
  rep_3 = 0;
  rep_4 = 0;
  rep_5 = 0;
  rep_6 = 0;
  rep_7 = 0;
}

abbrev pub echo_reply : ℕ
echo_reply = 0

abbrev pub echo_request : ℕ
echo_request = 8

unfoldable pub type : IcmpHeader → ℕ
type h = h.rep_0

unfoldable pub code : IcmpHeader → ℕ
code h = h.rep_1

unfoldable pub set_type : IcmpHeader → ℕ → IcmpHeader
set_type h n = record h { rep_0 = n }

unfoldable pub set_code : IcmpHeader → ℕ → IcmpHeader
set_code h n = record h { rep_1 = n }

unfoldable pub checksum : IcmpHeader → ℕ
checksum h = decode h.rep_2 h.rep_3

unfoldable pub identifier : IcmpHeader → ℕ
identifier h = decode h.rep_4 h.rep_5

unfoldable pub sequence_number : IcmpHeader → ℕ
sequence_number h = decode h.rep_6 h.rep_7

unfoldable pub set_checksum : IcmpHeader → ℕ → IcmpHeader
set_checksum h n = record h { rep_2 = high_byte n; rep_3 = low_byte n }

unfoldable pub set_identifier : IcmpHeader → ℕ → IcmpHeader
set_identifier h n = record h { rep_4 = high_byte n; rep_5 = low_byte n }

unfoldable pub set_sequence_number : IcmpHeader → ℕ → IcmpHeader
set_sequence_number h n = record h { rep_6 = high_byte n; rep_7 = low_byte n }

-- The loop of `compute_checksum` over the body, on the sum so far.
unfoldable pub add_body : ℕ → Bytes → ℕ
add_body sum [] = sum
add_body sum (x ∷ []) = (sum + x * 256) % 2 ^ 32
add_body sum (x ∷ (y ∷ body)) = add_body (((sum + x * 256) % 2 ^ 32 + y) % 2 ^ 32) body

-- The two carries, and the complement as an `unsigned short`.
unfoldable pub fold_sum : ℕ → ℕ
fold_sum sum =
    let once = (sum / 2 ^ 16 + sum % 2 ^ 16) % 2 ^ 32 in
    let twice = (once + once / 2 ^ 16) % 2 ^ 32 in (2 ^ 32 - 1 - twice) % 2 ^ 16

unfoldable pub compute_checksum : IcmpHeader → Bytes → IcmpHeader
unfolding identifier sequence_number set_checksum add_body fold_sum
compute_checksum h body =
    let sum = (h.rep_0 * 256 + h.rep_1 + identifier h + sequence_number h) % 2 ^ 32 in
    set_checksum h (fold_sum (add_body sum body))

-- `operator<<`.
unfoldable pub insert_header : IcmpHeader → Bytes
insert_header h = h.rep_0 ∷ h.rep_1 ∷ h.rep_2 ∷ h.rep_3 ∷ h.rep_4 ∷ h.rep_5 ∷ h.rep_6 ∷ h.rep_7 ∷ []

-- `operator>>` into a new header, whose bytes that are not read stay zero.
unfoldable pub extract_header : Stream → IcmpHeader × Stream
unfolding read
extract_header is =
    let (rep, behind) = read is 8 in
    (
      record {
        rep_0 = byte rep 0;
        rep_1 = byte rep 1;
        rep_2 = byte rep 2;
        rep_3 = byte rep 3;
        rep_4 = byte rep 4;
        rep_5 = byte rep 5;
        rep_6 = byte rep 6;
        rep_7 = byte rep 7;
      },
      behind,
    )
