-- ===== src/Asio/Icmp/Accepting.antt =====
-- What the extraction of an IPv4 header accepts, and how many bytes it writes.
use boost.Prelude.{
  ◌-◌, ◌≤◌, ℕ, true, Bytes, length, length-take, length-append, Bool-cases, inl, inr, arith, ltb,
  ◌==◌, if◌then◌else◌, ◌||◌,
}
use boost.Asio.Icmp.Ipv4Header.{Stream, read, version, header_length, extract}

length-read : (is : Stream) (n : ℕ) → length (read is n).0 ≤ n
unfolding read
length-read is n = elim (Bool-cases is.failed) [
  | inl e ↦ rw e (omega arith)
  | inr e ↦ rw (e, length-take) (omega arith)
]

header_length-le : (rep : Bytes) → header_length rep ≤ 60
unfolding header_length
header_length-le rep = omega arith

-- Whatever stands in the stream, the extraction of an IPv4 header writes at most 60 bytes, which is
-- the size of its array.
pub length-extract : (is : Stream) → length (extract is).0 ≤ 60
unfolding extract
length-extract is =
    let rep = (read is 20).0 in
    let head = length-read is 20 in
    let top = header_length-le rep in
    elim (Bool-cases (ltb (header_length rep) 20 || ltb 60 (header_length rep))) [
      | inl e ↦ rw e (omega (arith, head))
      | inr e ↦
          let checked =
            if version rep == 4 then (read is 20).1 else record (read is 20).1 { failed = true } in
          let options = length-read checked (header_length rep - 20) in
          rw (e, length-append) (omega (arith, head, options))
    ]
