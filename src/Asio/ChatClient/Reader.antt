-- ===== src/Asio/ChatClient/Reader.antt =====
-- The reads of a client, and of a session of the server: a header, then a body, and so on. Both are
-- readers, which a stream of bytes is given to.
use boost.Prelude.{
  ◌≡◌, ◌≤◌, refl, ap, ◌∙◌, ℕ, zero, suc, false, List, [], ◌∷◌, ◌++◌, Option, none, some, ltb, Bytes,
  All, map, take, drop, length, append_assoc, length-append, arith, if◌then◌else◌,
}
use boost.Prelude.Int.{ℤ}
use boost.Asio.Connection.{ErrorCode, success, failure}
use boost.Asio.Connection.Delivery.{concat}
use boost.Asio.ChatMessage.{header_length, max_body_length}
use boost.Asio.ChatMessage.RoundTrip.{IsPrinter}
use boost.Asio.ChatServer.{Part, header_part, body_part}
use boost.Asio.ChatClient.Frames.{frame, take_front, drop_front}

-- What is read next, the length of the body that is announced, and the handlers of both reads.
pub record Reader (S : Type 0) : Type 0 where
  pub part : S → Option Part
  pub size : S → ℕ
  pub on_header : ErrorCode → Bytes → S → S
  pub on_body : ErrorCode → Bytes → S → S

-- `async_read` of so many bytes from those that arrive, which fails where they end before: the
-- handler is called with what was read, and the rest is left.
unfoldable pub read_exactly : {S : Type 0} → (ErrorCode → Bytes → S → S) → ℕ → Bytes → S → Bytes × S
read_exactly handler n arriving s =
    if ltb (length arriving) n
    then ([], handler failure arriving s)
    else (drop n arriving, handler success (take n arriving) s)

unfoldable pub read_part : {S : Type 0} → Reader S → Option Part → Bytes → S → Bytes × S
unfolding read_exactly
read_part r none arriving s = (arriving, s)
read_part r (some header_part) arriving s = read_exactly r.on_header header_length arriving s
read_part r (some body_part) arriving s = read_exactly r.on_body (r.size s) arriving s

-- So many reads of what arrives.
unfoldable pub read_times : {S : Type 0} → Reader S → ℕ → Bytes → S → Bytes × S
unfolding read_part
read_times r zero arriving s = (arriving, s)
read_times r (suc n) arriving s =
    let (rest, t) = read_part r (r.part s) arriving s in read_times r n rest t

read_exactly_front :
    {S : Type 0} (handler : ErrorCode → Bytes → S → S) (a b : Bytes) (n : ℕ) (s : S)
    → length a ≡ n
    → read_exactly handler n (a ++ b) s ≡ (b, handler success a s)
unfolding read_exactly
read_exactly_front handler a b n s e =
    let long : ltb (length (a ++ b)) n ≡ false = ground (arith, length-append a b, e) in
    rw (long, take_front n a b e, drop_front n a b e) refl

-- What a reader owes: behind the header of a line it reads as many bytes as the line has, and behind
-- a body it reads a header.
pub record IsFramed {S : Type 0} (sprintf_4d : ℕ → Bytes) (r : Reader S) : Type 0 where
  pub announced :
      (line : Bytes) (s : S)
      → length line ≤ max_body_length
      → r.part s ≡ some header_part
      → (r.part (r.on_header success (sprintf_4d (length line)) s) ≡ some body_part)
        × (r.size (r.on_header success (sprintf_4d (length line)) s) ≡ length line)
  pub again : (line : Bytes) (s : S) → r.part (r.on_body success line s) ≡ some header_part

-- A reader behind the two reads of a line, and behind those of lines.
unfoldable pub take_line : {S : Type 0} → (sprintf_4d : ℕ → Bytes) → Reader S → Bytes → S → S
take_line sprintf_4d r line s =
    r.on_body success line (r.on_header success (sprintf_4d (length line)) s)

unfoldable pub take_lines : {S : Type 0} → (sprintf_4d : ℕ → Bytes) → Reader S → List Bytes → S → S
unfolding take_line
take_lines sprintf_4d r [] s = s
take_lines sprintf_4d r (line ∷ lines) s =
    take_lines sprintf_4d r lines (take_line sprintf_4d r line s)

-- The number of reads that lines need.
unfoldable pub reads_of : List Bytes → ℕ
reads_of [] = 0
reads_of (line ∷ lines) = suc (suc (reads_of lines))

module _ {S : Type 0} (sprintf_4d : ℕ → Bytes) (atoi : Bytes → ℤ) (laws : IsPrinter sprintf_4d atoi)
    (r : Reader S) (framed : IsFramed sprintf_4d r) where
  read_header_once :
      (line rest : Bytes) (s : S)
      → length line ≤ max_body_length
      → r.part s ≡ some header_part
      → read_part r (r.part s) (frame sprintf_4d line ++ rest) s
        ≡ (line ++ rest, r.on_header success (sprintf_4d (length line)) s)
  unfolding read_part
  read_header_once line rest s small e = rw e (
      ap (λ b. read_exactly r.on_header header_length b s)
        (append_assoc (sprintf_4d (length line)) line rest)
      ∙ read_exactly_front r.on_header (sprintf_4d (length line)) (line ++ rest) header_length s
          (laws.width (length line) small))

  read_body_once :
      (line rest : Bytes) (s : S)
      → r.part s ≡ some body_part
      → r.size s ≡ length line
      → read_part r (r.part s) (line ++ rest) s ≡ (rest, r.on_body success line s)
  unfolding read_part
  read_body_once line rest s e size =
      rw (e, size) (read_exactly_front r.on_body line rest (length line) s refl)

  -- A reader that waits for a header takes the lines whose messages arrive.
  pub read_times-frames :
      (lines : List Bytes) (rest : Bytes) (s : S)
      → All (λ line. length line ≤ max_body_length) lines
      → r.part s ≡ some header_part
      → read_times r (reads_of lines) (concat (map (frame sprintf_4d) lines) ++ rest) s
        ≡ (rest, take_lines sprintf_4d r lines s)
  unfolding read_times reads_of take_lines take_line
  read_times-frames [] rest s small e = refl
  read_times-frames (line ∷ lines) rest s (here, small) e =
      let t = r.on_header success (sprintf_4d (length line)) s in
      let known = framed.announced line s here e in
      let later = concat (map (frame sprintf_4d) lines) ++ rest in
      let go : Bytes × S → Bytes × S = λ x. read_times r (suc (reads_of lines)) x.0 x.1 in
      let end : Bytes × S → Bytes × S = λ x. read_times r (reads_of lines) x.0 x.1 in
      ap (λ b. read_times r (suc (suc (reads_of lines))) b s)
        (append_assoc (frame sprintf_4d line) (concat (map (frame sprintf_4d) lines)) rest)
      ∙ ap go (read_header_once line later s here e)
      ∙ ap end (read_body_once line later t known.0 known.1)
      ∙ read_times-frames lines rest (r.on_body success line t) small (framed.again line t)
