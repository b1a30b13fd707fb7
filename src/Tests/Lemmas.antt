-- ===== src/Tests/Lemmas.antt =====
-- The components' own theorems on small inputs.
use boost.Prelude.{
  ◌%◌, ◌≡◌, ◌≢◌, ◌≤◌, refl, false, [], ◌∷◌, Bytes, codes, arith, false, ℕ, ◌+◌, ◌*◌, ◌-◌, ◌/◌, ◌<◌,
  ltb, ◌==◌, if◌then◌else◌, ap,
}
use boost.Prelude.Int.{ℤ, pos}
use boost.Index.{DocInfo}
use boost.Asio.Icmp.IcmpHeader.{IcmpHeader, compute_checksum}
use boost.Asio.Icmp.Checksum.{message_sum, compute_checksum-message_sum}
use boost.Asio.Icmp.Ipv4Header.{Stream}
use boost.Asio.Socks4.{Address}
use boost.Asio.ChatMessage.{ChatMessage, max_body_length}
use boost.Asio.ChatMessage.RoundTrip.{IsPrinter}

abbrev heap : DocInfo
heap = record { doc_id = pos 0; title = codes "Heap"; url = codes "u"; content = codes "a heap" }

abbrev untitled : Bytes
untitled = codes "<title></title>"

-- An echo request.
abbrev echo : IcmpHeader
echo = record {
  rep_0 = 8;
  rep_1 = 0;
  rep_2 = 0;
  rep_3 = 0;
  rep_4 = 1;
  rep_5 = 2;
  rep_6 = 0;
  rep_7 = 9;
}

compute_checksum-message_sum_example :
    message_sum (compute_checksum echo (codes "ping!")) (codes "ping!") % 65535 ≡ 0
compute_checksum-message_sum_example =
    compute_checksum-message_sum echo (codes "ping!") (omega arith) (omega arith) (ground arith)
      (omega arith)

abbrev short_packet : Stream
short_packet = record { ahead = 0x4f ∷ 0 ∷ 0 ∷ []; failed = false }

abbrev loopback : Address
loopback = record { byte_0 = 127; byte_1 = 0; byte_2 = 0; byte_3 = 1 }

-- Four digits, right-aligned with spaces, and the number that they stand for.
unfoldable pub four_wide : ℕ → Bytes
four_wide n =
    (if ltb n 1000 then b' ' else b'0' + n / 1000 % 10)
    ∷ (if ltb n 100 then b' ' else b'0' + n / 100 % 10)
    ∷ (if ltb n 10 then b' ' else b'0' + n / 10 % 10)
    ∷ (b'0' + n % 10)
    ∷ []

abbrev digit_value : ℕ → ℕ
digit_value c = if c == b' ' then 0 else c - b'0'

unfoldable pub read_four : Bytes → ℤ
read_four (a ∷ b ∷ c ∷ d ∷ []) =
    pos (digit_value a * 1000 + digit_value b * 100 + digit_value c * 10 + digit_value d)
read_four _ = pos 0

-- A place that is blank below a bound stands for 0.
value_of_place :
    (n bound d : ℕ)
    → d < 10
    → digit_value (if ltb n bound then b' ' else b'0' + d) ≡ (if ltb n bound then 0 else d)
value_of_place n bound d h = ground arith

place_ne_zero : (n bound d : ℕ) → (if ltb n bound then b' ' else b'0' + d) ≢ 0
place_ne_zero n bound d = ground arith

places :
    (n : ℕ)
    → n ≤ max_body_length
    → digit_value (if ltb n 1000 then b' ' else b'0' + n / 1000 % 10) * 1000
        + digit_value (if ltb n 100 then b' ' else b'0' + n / 100 % 10) * 100
        + digit_value (if ltb n 10 then b' ' else b'0' + n / 10 % 10) * 10
        + digit_value (b'0' + n % 10)
      ≡ n
places n h =
    rw
      (
        value_of_place n 1000 (n / 1000 % 10) (omega arith),
        value_of_place n 100 (n / 100 % 10) (omega arith),
        value_of_place n 10 (n / 10 % 10) (omega arith),
      )
      (ground arith)

pub four_wide-IsPrinter : IsPrinter four_wide read_four
unfolding four_wide read_four
four_wide-IsPrinter = record {
  width = λ n h. refl;
  no_zero = λ n h. (
    place_ne_zero n 1000 _,
    (place_ne_zero n 100 _, (place_ne_zero n 10 _, ((λ e. omega arith), tt))),
  );
  reads = λ n h. ap pos (places n h);
}

abbrev message : ChatMessage
message = record { data_ = codes "....hello"; body_length_ = 5 }

abbrev received : ChatMessage
received = record message { data_ = codes "   5hello"; body_length_ = 0 }
