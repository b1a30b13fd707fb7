-- ===== src/Tests/Networks.antt =====
-- The pinger, the non-blocking echo, the parser of requests and a chat on small inputs.
use boost.Prelude.{◌≡◌, ◌⊎◌, refl, true, false, [], ◌∷◌, ◌++◌, Bytes, codes, take, drop, arith}
use boost.Prelude.Int.{pos, negsuc}
use boost.Asio.Icmp.Ipv4Header.{header_length, extract}
use boost.Asio.Icmp.Accepted.{IsHeader, extract_cases}
use boost.Asio.Icmp.Ping
use boost.Asio.Icmp.Ping.Runs
use boost.Asio.Icmp.Ping.Spacing.{IsPaced, pinger-IsPaced}
use boost.Asio.Nonblocking
use boost.Asio.Nonblocking.Running
use boost.Asio.Nonblocking.Echo.{IsEchoing, Reach-IsEchoing}
use boost.Asio.Request.{no_request}
use boost.Asio.RequestParser.{
  parse, method_start, is_true, consume, is_char, is_ctl, is_tspecial, is_digit,
}
use boost.Asio.RequestParser.Clean.{IsClean}
use boost.Asio.RequestParser.Safety.{IsAccepted, parse-IsAccepted}

-- A header of twenty bytes, and a reply with the identifier 9 and the number 1.
abbrev packet : Bytes
packet =
    (69 ∷ 0 ∷ 0 ∷ 28 ∷ 0 ∷ 0 ∷ 0 ∷ 0 ∷ 64 ∷ 1 ∷ [])
    ++ (0 ∷ 0 ∷ 127 ∷ 0 ∷ 0 ∷ 1 ∷ 127 ∷ 0 ∷ 0 ∷ 2 ∷ [])
    ++ (0 ∷ 0 ∷ 0 ∷ 0 ∷ 0 ∷ 9 ∷ 0 ∷ 1 ∷ [])

extract_cases_example :
    (IsHeader packet
      × (extract (record { ahead = packet; failed = false }) ≡ (
        take (header_length packet) packet,
        record { ahead = drop (header_length packet) packet; failed = false },
      )))
    ⊎ ((¬ IsHeader packet)
        × ((extract (record { ahead = packet; failed = false })).1.failed ≡ true))
extract_cases_example = extract_cases packet

abbrev first : Ping.Pinger
first = Ping.pinger 9 0

-- The first request times out, and the second is sent.
abbrev timed_out : Ping.Pinger
timed_out = Ping.handle_timeout (record first { waits = [] })

abbrev second : Ping.Pinger
second = Ping.start_send 9 6000000 (record timed_out { waits = [] })

second-Runs : Runs.Runs 9 2 6000000 second
unfolding Ping.pinger Ping.start_send Ping.handle_timeout Ping.wait_until Ping.start_receive
second-Runs =
    Runs.expired 6000000 Ping.sending []
      (Runs.expired 5000000 Ping.timeout [] (Runs.created 0) (omega arith) (omega arith) refl)
      (omega arith) (omega arith) refl

pinger-IsPaced_example : IsPaced 9 second.time_sent second.expected second.sent
pinger-IsPaced_example = pinger-IsPaced (omega arith) second-Runs

-- A clock that was set back by two milliseconds and a half, and one that went on.
set_back : Ping.total_milliseconds 1000 3500 ≡ negsuc 1
unfolding Ping.total_milliseconds
set_back = refl

went_on : Ping.total_milliseconds 3500 1000 ≡ pos 2
unfolding Ping.total_milliseconds
went_on = refl

-- Two bytes are read, and one of them is written.
abbrev half_echoed : Nonblocking.Connection
half_echoed =
    Nonblocking.handle_write Nonblocking.success Nonblocking.success 1
      (record (Nonblocking.handle_read Nonblocking.success Nonblocking.success (1 ∷ 2 ∷ [])
        (record (Nonblocking.start Nonblocking.connection) { reads = 0 })) { writes = 0 })

half_echoed-Reach : Running.Reach half_echoed
unfolding Nonblocking.start Nonblocking.start_operations Nonblocking.handle_read Nonblocking.do_read
    Nonblocking.go_on
half_echoed-Reach =
    Running.was_writable Nonblocking.success Nonblocking.success 1
      (Running.was_readable Nonblocking.success Nonblocking.success (1 ∷ 2 ∷ []) Running.started
        refl (omega arith))
      refl (omega arith)

Reach-IsEchoing_example : IsEchoing half_echoed
Reach-IsEchoing_example = Reach-IsEchoing half_echoed-Reach

abbrev small_request : Bytes
small_request = codes "GET / HTTP/1.0\r\nHost: a\r\n\r\n"

new-IsClean : IsClean method_start no_request
new-IsClean = record { started = tt; method = tt; uri = tt; headers = tt }

small-is_true : (parse method_start no_request small_request).step.result ≡ is_true
unfolding parse consume is_char is_ctl is_tspecial is_digit
small-is_true = refl

parse-IsAccepted_example : IsAccepted (parse method_start no_request small_request).step.request
parse-IsAccepted_example =
    parse-IsAccepted method_start no_request small_request new-IsClean small-is_true
