-- ===== src/Asio/Stream.antt =====
-- The numbers in hexadecimal that porthopper/protocol.hpp and serialization/connection.hpp, below
-- doc_searcher/data/input/html/boost_asio/example, write with `std::setw` and read again.
use boost.Prelude.{
  ◌-◌, ◌^◌, ◌≡◌, ◌≤◌, ◌<◌, refl, ap, ◌∙◌, ℕ, zero, suc, Option, [], ◌∷◌, ◌++◌, some, Bytes, length,
  length-append, take, drop, take-append_length, drop-append_length, arith,
}

-- Spaces in front, as `std::setw` has the next text filled up.
unfoldable pub spaces : ℕ → Bytes
spaces zero = []
spaces (suc n) = b' ' ∷ spaces n

unfoldable pub setw : (width : ℕ) → Bytes → Bytes
unfolding spaces
setw width s = spaces (width - length s) ++ s

-- What the streams do with `std::hex`: the text of a number, and the number that is read from a text,
-- as an `unsigned short` and as a longer one.
pub record Hex : Type 0 where
  pub to_hex : ℕ → Bytes
  pub read_short : Bytes → Option ℕ
  pub read_long : Bytes → Option ℕ

-- A number below a power of sixteen has at most so many digits, any other has more, and a number of
-- 16 or of 32 bits is read behind spaces as it was written.
pub record IsHex (hex : Hex) : Type 0 where
  pub narrow : (n w : ℕ) → 0 < w → n < 16 ^ w → length (hex.to_hex n) ≤ w
  pub wide : (n w : ℕ) → 16 ^ w ≤ n → w < length (hex.to_hex n)
  pub reads_short : (n k : ℕ) → n < 2 ^ 16 → hex.read_short (spaces k ++ hex.to_hex n) ≡ some n
  pub reads_long : (n k : ℕ) → n < 2 ^ 32 → hex.read_long (spaces k ++ hex.to_hex n) ≡ some n

length-spaces : (n : ℕ) → length (spaces n) ≡ n
unfolding spaces
length-spaces zero = refl
length-spaces (suc n) = ap suc (length-spaces n)

pub length-setw : (width : ℕ) (s : Bytes) → length s ≤ width → length (setw width s) ≡ width
unfolding setw
length-setw width s h =
    length-append (spaces (width - length s)) s
    ∙ rw (length-spaces (width - length s)) (omega arith)

pub length-setw_le : (width : ℕ) (s : Bytes) → length s ≤ length (setw width s)
unfolding setw
length-setw_le width s = omega (arith, length-append (spaces (width - length s)) s)

pub read_short-setw :
    (hex : Hex) (laws : IsHex hex) (width n : ℕ)
    → n < 2 ^ 16
    → hex.read_short (setw width (hex.to_hex n)) ≡ some n
unfolding setw
read_short-setw hex laws width n h = laws.reads_short n (width - length (hex.to_hex n)) h

pub read_long-setw :
    (hex : Hex) (laws : IsHex hex) (width n : ℕ)
    → n < 2 ^ 32
    → hex.read_long (setw width (hex.to_hex n)) ≡ some n
unfolding setw
read_long-setw hex laws width n h = laws.reads_long n (width - length (hex.to_hex n)) h

-- The front of a text, and what is behind it.
pub take_front : (n : ℕ) (a b : Bytes) → length a ≡ n → take n (a ++ b) ≡ a
take_front n a b e = rw⁻¹ e (take-append_length a b)

pub drop_front : (n : ℕ) (a b : Bytes) → length a ≡ n → drop n (a ++ b) ≡ b
drop_front n a b e = rw⁻¹ e (drop-append_length a b)
