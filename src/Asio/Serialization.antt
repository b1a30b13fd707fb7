-- ===== src/Asio/Serialization.antt =====
-- doc_searcher/data/input/html/boost_asio/example/serialization/connection.hpp: messages of a
-- header of eight bytes and serialized data. The archives of Boost and the streams are arguments.
pub mod RoundTrip
use boost.Prelude.{
  ◌≡◌, ℕ, Bool, true, false, not, Option, List, [], ◌∷◌, ◌++◌, none, some, ◌==◌, if◌then◌else◌,
  Bytes, length,
}
use boost.Asio.Connection.{ErrorCode, success, operation_aborted, failure}
use boost.Asio.Stream.{Hex, setw}

abbrev pub header_length : ℕ
header_length = 8

-- The archives: what is written for a value, and what is read, or none where an exception is thrown.
pub record Archive (A : Type 0) : Type 0 where
  pub write : A → Bytes
  pub read : Bytes → Option A

-- What a call or a handler does next: it calls the handler of the caller, with a value or with
-- an error, `invalid_argument` or that of the operation, or it starts a read or a write.
pub data Next (A : Type 0) : Type 0 where
  invalid_argument : Next A
  failed : ErrorCode → Next A
  reading_data : (inbound_data_size : ℕ) → Next A
  writing : (outbound_header_ outbound_data_ : Bytes) → Next A
  received : A → Next A

module _ (A : Type 0) (hex : Hex) (archive : Archive A) where
  unfoldable pub async_write : A → Next A
  unfolding setw
  async_write t =
      let text = archive.write t in
      let header = setw header_length (hex.to_hex (length text)) in
      if not (length header == header_length) then invalid_argument else writing header text

  -- What the header that was received makes `handle_read_header` do.
  abbrev pub sized : Option ℕ → Next A
  sized none = invalid_argument
  sized (some n) = reading_data n

  unfoldable pub handle_read_header : ErrorCode → (inbound_header_ : Bytes) → Next A
  handle_read_header success header = sized (hex.read_long header)
  handle_read_header operation_aborted header = failed operation_aborted
  handle_read_header failure header = failed failure

  -- What the archive makes `handle_read_data` do.
  abbrev pub extracted : Option A → Next A
  extracted none = invalid_argument
  extracted (some t) = received t

  unfoldable pub handle_read_data : ErrorCode → (inbound_data_ : Bytes) → Next A
  handle_read_data success text = extracted (archive.read text)
  handle_read_data operation_aborted text = failed operation_aborted
  handle_read_data failure text = failed failure
