-- ===== src/Asio/Icmp/Ping/Replies.antt =====
-- Which packets hold the reply that the pinger waits for.
use boost.Prelude.{
  ◌+◌, ◌≡◌, ◌≤◌, ◌<◌, refl, ap, ◌∙◌, subst, ℕ, Bool, true, false, not, ◌&&◌, ◌==◌, ltb, Bytes,
  length, take, drop, length-drop, Bool-cases, eq_refl, inl, inr, arith,
}
use boost.Asio.Icmp.Ipv4Header.{Stream, read, byte, header_length, extract}
use boost.Asio.Icmp.IcmpHeader.{
  IcmpHeader, decode, type, identifier, sequence_number, extract_header,
}
use boost.Asio.Icmp.Accepted.{IsHeader, byte-take, extract_good, extract_bad}
use boost.Asio.Icmp.Ping.{is_expected}

-- An IPv4 header, and behind it the header of an echo reply with this identifier and number.
pub record IsReply (id number : ℕ) (packet : Bytes) : Type 0 where
  pub header : IsHeader packet
  pub whole : header_length packet + 8 ≤ length packet
  pub kind : byte (drop (header_length packet) packet) 0 ≡ 0
  pub own :
      decode
        (byte (drop (header_length packet) packet) 4)
        (byte (drop (header_length packet) packet) 5)
      ≡ id
  pub current :
      decode
        (byte (drop (header_length packet) packet) 6)
        (byte (drop (header_length packet) packet) 7)
      ≡ number

-- The header of eight bytes.
abbrev pub bytes_header : Bytes → IcmpHeader
bytes_header m = record {
  rep_0 = byte m 0;
  rep_1 = byte m 1;
  rep_2 = byte m 2;
  rep_3 = byte m 3;
  rep_4 = byte m 4;
  rep_5 = byte m 5;
  rep_6 = byte m 6;
  rep_7 = byte m 7;
}

-- A header that was read whole.
pub read_header :
    (m : Bytes)
    → 8 ≤ length m
    → (extract_header (record { ahead = m; failed = false })
        ≡ (bytes_header m, record { ahead = drop 8 m; failed = false }))
unfolding extract_header read
read_header m long =
    let at : (i : ℕ) → i < 8 → byte (take 8 m) i ≡ byte m i = λ i h. byte-take 8 i m h in
    let enough : ltb (length m) 8 ≡ false = ground arith in
    rw
      (
        enough,
        at 0 (omega arith),
        at 1 (omega arith),
        at 2 (omega arith),
        at 3 (omega arith),
        at 4 (omega arith),
        at 5 (omega arith),
        at 6 (omega arith),
        at 7 (omega arith),
      )
      refl

short_header :
    (m : Bytes)
    → (extract_header (record { ahead = m; failed = false })).1.failed ≡ ltb (length m) 8
unfolding extract_header read
short_header m = refl

failed_header : (is : Stream) → is.failed ≡ true → (extract_header is).1.failed ≡ true
unfolding extract_header read
failed_header is e = ground (arith, e)

-- The test of `handle_receive` on what was extracted.
unfoldable pub passes : ℕ → ℕ → (Bytes × Stream) → Bool
passes id number (rep, behind) =
    not (extract_header behind).1.failed && is_expected id number (extract_header behind).0

passes_whole :
    (id number : ℕ) (rep m : Bytes)
    → passes id number (rep, record { ahead = m; failed = false }) ≡ true
    → 8 ≤ length m
unfolding passes
passes_whole id number rep m h =
    let s = short_header m in
    let long : ltb (length m) 8 ≡ false = ground (arith, s, h) in ground (arith, long)

pub passes-IsReply :
    (id number : ℕ) (packet : Bytes)
    → passes id number (extract (record { ahead = packet; failed = false })) ≡ true
    → IsReply id number packet
unfolding passes is_expected type identifier sequence_number
passes-IsReply id number packet h =
    let is : Stream = record { ahead = packet; failed = false } in
    let unread : (extract is).1.failed ≡ false = elim (Bool-cases (extract is).1.failed) [
      | inl bad ↦ absurd (ground (arith, failed_header (extract is).1 bad, h))
      | inr fine ↦ fine
    ] in
    let front = (extract_bad is unread).1 in
    let m = drop (header_length packet) packet in
    let left = length-drop {A = ℕ} (header_length packet) packet in
    let tested = subst (λ r. passes id number r ≡ true) (extract_good packet front) h in
    let whole = passes_whole id number (take (header_length packet) packet) m tested in
    let read =
      subst (λ r. (not r.1.failed && is_expected id number r.0) ≡ true) (read_header m whole)
        tested in
    record {
      header = front;
      whole = omega (arith, left, whole, front.whole);
      kind = ground (arith, read);
      own = ground (arith, read);
      current = ground (arith, read);
    }

pub expected_header :
    (id number : ℕ) (packet : Bytes)
    → IsReply id number packet
    → is_expected id number (bytes_header (drop (header_length packet) packet)) ≡ true
unfolding is_expected type identifier sequence_number
expected_header id number packet h =
    let kind : (byte (drop (header_length packet) packet) 0 == 0) ≡ true = ground (arith, h.kind) in
    rw (kind, h.own, h.current, eq_refl id, eq_refl number) refl

pub reply-passes :
    (id number : ℕ) (packet : Bytes)
    → IsReply id number packet
    → passes id number (extract (record { ahead = packet; failed = false })) ≡ true
unfolding passes
reply-passes id number packet h =
    let m = drop (header_length packet) packet in
    let left = length-drop {A = ℕ} (header_length packet) packet in
    ap (passes id number) (extract_good packet h.header)
    ∙ ap (λ (r : IcmpHeader × Stream). not r.1.failed && is_expected id number r.0)
        (read_header m (omega (arith, left, h.whole)))
    ∙ expected_header id number packet h
