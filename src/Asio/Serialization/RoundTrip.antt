-- ===== src/Asio/Serialization/RoundTrip.antt =====
-- Writing a message, and reading it again.
use boost.Prelude.{◌^◌, ◌≡◌, ◌≤◌, ◌<◌, refl, false, some, ◌==◌, Bytes, length, arith}
use boost.Asio.Connection.{success}
use boost.Asio.Stream.{Hex, IsHex, setw, length-setw, length-setw_le, read_long-setw}
use boost.Asio.Serialization.{
  header_length, Archive, invalid_argument, reading_data, writing, received, async_write,
  handle_read_header, handle_read_data,
}

module _ (A : Type 0) (hex : Hex) (laws : IsHex hex) (archive : Archive A) where
  abbrev header : A → Bytes
  header t = setw header_length (hex.to_hex (length (archive.write t)))

  -- If streams write and read hexadecimal numbers as documented, the archive reads the value from
  -- what it wrote, and that is shorter than 2^32 bytes, then async_write sends a header of 8 bytes
  -- and the text, the handler of the header starts a read of exactly that text, and the handler of
  -- the text gives back the value.
  pub handle_read-async_write :
      (t : A)
      → archive.read (archive.write t) ≡ some t
      → length (archive.write t) < 2 ^ 32
      → (head text : Bytes) × (async_write A hex archive t ≡ writing head text)
        × (length head ≡ header_length)
        × (handle_read_header A hex archive success head ≡ reading_data (length text))
        × (handle_read_data A hex archive success text ≡ received t)
  unfolding async_write handle_read_header handle_read_data
  handle_read-async_write t back small =
      let text = archive.write t in
      let size : length (header t) ≡ header_length =
        length-setw 8 (hex.to_hex (length text))
          (laws.narrow (length text) 8 (omega arith) small) in
      (
        header t,
        text,
        rw size refl,
        size,
        rw (read_long-setw hex laws 8 (length text) small) refl,
        rw back refl,
      )

  -- A text whose length needs more than eight digits is not sent.
  pub async_write_refused :
      (t : A) → 2 ^ 32 ≤ length (archive.write t) → async_write A hex archive t ≡ invalid_argument
  unfolding async_write
  async_write_refused t large =
      let digits = hex.to_hex (length (archive.write t)) in
      let wide = laws.wide (length (archive.write t)) 8 large in
      let padded = length-setw_le 8 digits in
      let ne : (length (header t) == header_length) ≡ false = ground arith in rw ne refl
