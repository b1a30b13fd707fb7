-- ===== src/Asio/Porthopper/RoundTrip.antt =====
-- The messages, written and read again.
use boost.Prelude.{
  ◌^◌, ◌≡◌, ◌<◌, refl, ℕ, ◌++◌, Bytes, length, length-append, take, length-take, take_of_length-le,
  arith,
}
use boost.Asio.Stream.{
  Hex, IsHex, setw, length-setw, read_short-setw, read_long-setw, take_front, drop_front,
}
use boost.Asio.Porthopper.{
  encoded_port_size, control_request_size, payload_size, encoded_number_size, frame_size,
  control_request, old_port, new_port, frame, number, payload,
}

module _ (hex : Hex) (laws : IsHex hex) where
  length-port : (port : ℕ) → port < 2 ^ 16 → length (setw encoded_port_size (hex.to_hex port)) ≡ 4
  length-port port h = length-setw 4 (hex.to_hex port) (laws.narrow port 4 (omega arith) h)

  -- Both ports of a control request are read as they were written.
  pub ports-control_request :
      (old new : ℕ)
      → old < 2 ^ 16
      → new < 2 ^ 16
      → (old_port hex (control_request hex old new) ≡ old)
        × (new_port hex (control_request hex old new) ≡ new)
  unfolding control_request old_port new_port
  ports-control_request old new h k =
      let a = setw encoded_port_size (hex.to_hex old) in
      let b = setw encoded_port_size (hex.to_hex new) in
      let whole : take control_request_size (a ++ b) ≡ a ++ b =
        take_of_length-le control_request_size (a ++ b)
          (omega (arith, length-append a b, length-port old h, length-port new k)) in
      let back : take encoded_port_size b ≡ b =
        take_of_length-le encoded_port_size b (omega (arith, length-port new k)) in
      rw
        (
          whole,
          take_front 4 a b (length-port old h),
          drop_front 4 a b (length-port old h),
          back,
          read_short-setw hex laws encoded_port_size old h,
          read_short-setw hex laws encoded_port_size new k,
        )
        (refl, refl)

  -- If streams write and read hexadecimal numbers as documented, the receiver of a frame with a
  -- number of 32 bits reads that number, and as its payload the first 32 bytes of the text behind
  -- the spaces that fill them up.
  pub number-frame :
      (n : ℕ) (text : Bytes)
      → n < 2 ^ 32
      → (number hex (frame hex n text) ≡ n)
        × (payload (frame hex n text) ≡ setw payload_size (take payload_size text))
  unfolding frame number payload
  number-frame n text h =
      let a = setw encoded_number_size (hex.to_hex n) in
      let b = setw payload_size (take payload_size text) in
      let front : length a ≡ 8 = length-setw 8 (hex.to_hex n) (laws.narrow n 8 (omega arith) h) in
      let back : length b ≡ 32 =
        length-setw 32 (take 32 text) (omega (arith, length-take 32 text)) in
      let whole : take frame_size (a ++ b) ≡ a ++ b =
        take_of_length-le frame_size (a ++ b) (omega (arith, length-append a b, front, back)) in
      let last : take payload_size b ≡ b = take_of_length-le payload_size b (omega (arith, back)) in
      rw
        (
          whole,
          take_front 8 a b front,
          drop_front 8 a b front,
          last,
          read_long-setw hex laws encoded_number_size n h,
        )
        (refl, refl)
