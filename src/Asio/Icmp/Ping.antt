-- ===== src/Asio/Icmp/Ping.antt =====
-- doc_searcher/data/input/html/boost_asio/example/icmp/ping.cpp: the pinger, its requests, its timer
-- and the replies. Times are microseconds of the clock. A wait that is cancelled has its handler
-- called as well: the handlers here are bound without the error code.
pub mod Runs
pub mod Phases
pub mod Spacing
pub mod Replies
pub mod Received
use boost.Prelude.{
  ◌+◌, ◌-◌, ◌%◌, ◌/◌, ◌^◌, ℕ, Bool, true, false, ◌&&◌, not, [], ◌∷◌, ◌++◌, ◌==◌, leb, if◌then◌else◌,
  Bytes, length, List, codes, refl,
}
use boost.Prelude.Int.{ℤ, pos, neg}
use boost.Asio.Icmp.Ipv4Header.{Stream, header_length, source_address, time_to_live, extract}
use boost.Asio.Icmp.IcmpHeader.{
  IcmpHeader, echo_reply, echo_request, icmp_header, type, identifier, sequence_number, set_type,
  set_code, set_identifier, set_sequence_number, compute_checksum, insert_header, extract_header,
}

-- The handler that a wait was started with.
pub data Task : Type 0 where
  timeout sending : Task

-- A line about a reply.
pub record Line : Type 0 where
  pub bytes : ℕ
  pub from : Bytes
  pub icmp_seq : ℕ
  pub ttl : ℕ
  pub time : ℤ

-- `pinger`, with what the timer holds, what was sent and what was printed, the newest first.
pub record Pinger : Type 0 where
  pub expected : ℕ
  pub time_sent : ℕ
  pub num_replies : ℕ
  pub expiry : ℕ
  pub waits : List Task
  pub cancelled : List Task
  pub reply_buffer : Bytes
  pub sent : List (ℕ × Bytes)
  pub printed : List Line

-- `timer_.cancel()`.
unfoldable pub cancel : Pinger → Pinger
cancel p = record p { waits = []; cancelled = p.cancelled ++ p.waits }

-- `timer_.expires_at(time)`, which cancels as well, and `timer_.async_wait`.
unfoldable pub wait_until : ℕ → Task → Pinger → Pinger
wait_until time task p = record p {
  expiry = time;
  waits = task ∷ [];
  cancelled = p.cancelled ++ p.waits;
}

abbrev pub body : Bytes
body = codes "\"Hello!\" from Asio ping."

-- The packet of a request.
unfoldable pub request : ℕ → ℕ → Bytes
request id number =
    let header =
      set_sequence_number (set_identifier (set_code (set_type icmp_header echo_request) 0) id)
        number in
    insert_header (compute_checksum header body) ++ body

unfoldable pub start_send : ℕ → ℕ → Pinger → Pinger
unfolding request wait_until
start_send id now p =
    let number = (p.expected + 1) % 2 ^ 16 in
    wait_until (now + 5000000) timeout (record p {
      expected = number;
      time_sent = now;
      num_replies = 0;
      sent = (now, request id number) ∷ p.sent;
    })

-- `handle_timeout`: the message is not kept.
unfoldable pub handle_timeout : Pinger → Pinger
unfolding wait_until
handle_timeout p = wait_until (p.time_sent + 1000000) sending p

unfoldable pub start_receive : Pinger → Pinger
start_receive p = record p { reply_buffer = [] }

-- The test of `handle_receive`: the header is that of a reply to the last request.
unfoldable pub is_expected : ℕ → ℕ → IcmpHeader → Bool
unfolding type identifier sequence_number
is_expected id number h =
    type h == echo_reply && (identifier h == id && sequence_number h == number)

-- `(now - time_sent_).total_milliseconds()`: signed, as the clock may have been set back, and with
-- the rest of the division dropped.
unfoldable pub total_milliseconds : ℕ → ℕ → ℤ
total_milliseconds now time_sent =
    if leb time_sent now then pos ((now - time_sent) / 1000) else neg ((time_sent - now) / 1000)

-- What `handle_receive` does about such a reply.
unfoldable pub count_reply : ℕ → ℕ → Bytes → IcmpHeader → Pinger → Pinger
unfolding cancel header_length source_address sequence_number time_to_live
count_reply now received rep h p =
    let told = if p.num_replies == 0 then cancel p else p in
    record told {
      num_replies = (p.num_replies + 1) % 2 ^ 64;
      printed =
          record {
            bytes = (2 ^ 64 + received - header_length rep) % 2 ^ 64;
            from = source_address rep;
            icmp_seq = sequence_number h;
            ttl = time_to_live rep;
            time = total_milliseconds now p.time_sent;
          }
          ∷ p.printed;
    }

-- `handle_receive`, with the bytes that were received.
unfoldable pub handle_receive : ℕ → ℕ → Bytes → Pinger → Pinger
unfolding start_receive is_expected count_reply extract extract_header
handle_receive id now received p =
    let (rep, behind) = extract (record { ahead = p.reply_buffer ++ received; failed = false }) in
    let (h, end) = extract_header behind in
    start_receive (
      if not end.failed && is_expected id p.expected h
      then count_reply now (length received) rep h p
      else p)

-- The constructor.
unfoldable pub pinger : ℕ → ℕ → Pinger
unfolding start_send start_receive
pinger id now = start_receive (
    start_send id now (record {
      expected = 0;
      time_sent = 0;
      num_replies = 0;
      expiry = 0;
      waits = [];
      cancelled = [];
      reply_buffer = [];
      sent = [];
      printed = [];
    }))
