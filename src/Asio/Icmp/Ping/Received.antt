-- ===== src/Asio/Icmp/Ping/Received.antt =====
-- What the pinger makes of the packets that it receives.
use boost.Prelude.{◌+◌, ◌-◌, ◌<◌, ◌≤◌, ◌*◌, zero, suc, ℕ, not, ◌&&◌, if◌then◌else◌, Bytes, length}
use boost.Prelude.Int.{ℤ, pos, negsuc}
use boost.Asio.Icmp.Ipv4Header.{Stream, header_length, source_address, time_to_live}
use boost.Asio.Icmp.IcmpHeader.{IcmpHeader}
use boost.Asio.Icmp.Ping.Runs.{Runs}
use boost.Asio.Icmp.Ping.{Line, Pinger, start_receive, is_expected, count_reply}

-- These are the whole milliseconds from a time to another one, which may be the earlier: the
-- distance has as many of them and not one more, and the sign is that of the direction.
abbrev pub IsElapsed : (earlier later : ℕ) → ℤ → Type 0
IsElapsed earlier later (pos zero) = (later < earlier + 1000) × (earlier < later + 1000)
IsElapsed earlier later (pos (suc n)) =
    (earlier + 1000 * (n + 1) ≤ later) × (later < earlier + 1000 * (n + 2))
IsElapsed earlier later (negsuc n) =
    (later + 1000 * (n + 1) ≤ earlier) × (earlier < later + 1000 * (n + 2))

-- The line about such a packet, with the time that it took.
pub line : ℤ → Bytes → Pinger → Line
unfolding source_address time_to_live
line time packet p = record {
  bytes = length packet - header_length packet;
  from = source_address packet;
  icmp_seq = p.expected;
  ttl = time_to_live packet;
  time = time;
}

-- `handle_receive` behind the two extractions.
tail : ℕ → ℕ → ℕ → Pinger → Bytes → IcmpHeader × Stream → Pinger
tail id now size p rep (h, end) =
    start_receive
      (if not end.failed && is_expected id p.expected h then count_reply now size rep h p else p)
