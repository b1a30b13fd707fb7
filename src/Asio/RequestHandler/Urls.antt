-- ===== src/Asio/RequestHandler/Urls.antt =====
-- Addresses written with escapes, and read back by `url_decode`.
use mathlib.Core.Option
use boost.Prelude.{
  ◌≡◌, refl, ◌<◌, ◌/◌, ◌%◌, ◌+◌, ◌-◌, ◌++◌, ap, ◌∙◌, ℕ, Bool, false, Option, [], ◌∷◌, some, ltb,
  if◌then◌else◌, ◌==◌, Bytes, All, Bool-cases, inl, inr,
}
use boost.Asio.RequestHandler.{unplus, url_decode}

-- A hexadecimal digit, and the two digits of a byte.
abbrev pub hex_digit : ℕ → ℕ
hex_digit n = if ltb n 10 then b'0' + n else b'A' + (n - 10)

abbrev pub hex_pair : ℕ → Bytes
hex_pair c = hex_digit (c / 16) ∷ hex_digit (c % 16) ∷ []

-- `is >> std::hex >> value` reads two digits as the number they stand for.
abbrev pub ReadsHex : (Bytes → Option ℕ) → Type 0
ReadsHex read_hex = (c : ℕ) → c < 256 → read_hex (hex_pair c) ≡ some c

-- The bytes that `keep` has as they are, but for the two that mean something else; the rest escaped.
abbrev pub url_encode : (keep : ℕ → Bool) → Bytes → Bytes
url_encode keep [] = []
url_encode keep (c ∷ s) =
    if c == b'%'
    then b'%' ∷ hex_pair c ++ url_encode keep s
    else if c == b'+'
    then b'%' ∷ hex_pair c ++ url_encode keep s
    else if keep c
    then c ∷ url_encode keep s
    else b'%' ∷ hex_pair c ++ url_encode keep s

-- A byte that is no '%' stands for itself, or for a space.
url_decode-cons :
    (read_hex : Bytes → Option ℕ) (c : ℕ) (s : Bytes)
    → (c == b'%') ≡ false
    → url_decode read_hex (c ∷ s) ≡ Option.map (◌∷◌ (unplus c)) (url_decode read_hex s)
unfolding url_decode
url_decode-cons read_hex c [] e = rw e
url_decode-cons read_hex c (x ∷ []) e = rw e
url_decode-cons read_hex c (x ∷ (y ∷ s)) e = rw e

url_decode-hex_pair :
    (read_hex : Bytes → Option ℕ) (c : ℕ) (s : Bytes)
    → ReadsHex read_hex
    → c < 256
    → url_decode read_hex (b'%' ∷ hex_pair c ++ s) ≡ Option.map (◌∷◌ c) (url_decode read_hex s)
unfolding url_decode Option.bind
url_decode-hex_pair read_hex c s reads h = rw (reads c h)

-- url_decode gives back every text of bytes that was written with escapes, whichever bytes besides
-- "%" and "+" were left as they are, if the stream reads two hexadecimal digits as the number they
-- stand for.
pub url_decode-url_encode :
    (read_hex : Bytes → Option ℕ) (keep : ℕ → Bool) (s : Bytes)
    → ReadsHex read_hex
    → All (λ c. c < 256) s
    → url_decode read_hex (url_encode keep s) ≡ some s
unfolding url_decode
url_decode-url_encode read_hex keep [] reads h = refl
url_decode-url_encode read_hex keep (c ∷ s) reads (p, h) =
    let next = url_decode-url_encode read_hex keep s reads h in
    let escaped : url_decode read_hex (b'%' ∷ hex_pair c ++ url_encode keep s) ≡ some (c ∷ s) =
      url_decode-hex_pair read_hex c (url_encode keep s) reads p ∙ ap (Option.map (◌∷◌ c)) next in
    elim (Bool-cases (c == b'%')) [
      | inl e ↦ rw e escaped
      | inr e ↦ elim (Bool-cases (c == b'+')) [
        | inl f ↦ rw (e, f) escaped
        | inr f ↦ elim (Bool-cases (keep c)) [
          | inl g ↦ rw (e, f, g) (url_decode-cons read_hex c (url_encode keep s) e ∙ rw (next, f))
          | inr g ↦ rw (e, f, g) escaped
        ]
      ]
    ]
