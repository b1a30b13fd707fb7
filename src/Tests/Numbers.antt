-- ===== src/Tests/Numbers.antt =====
-- Streams that write and read numbers in hexadecimal, and the messages that are made with them.
use native.Mathlib.Nat.{pow-succ'}
use boost.Prelude.{
  ◌+◌, ◌*◌, ◌/◌, ◌%◌, ◌^◌, ◌≡◌, ◌≤◌, ◌<◌, refl, ap, ◌∙◌, ℕ, zero, suc, true, false, Option, [], ◌∷◌,
  ◌++◌, none, some, ◌==◌, ltb, if◌then◌else◌, Bytes, length, length-append, arith, Bool-cases, inl,
  inr, append_assoc, append-nil, subst,
}
use boost.Asio.RequestHandler.Urls.{hex_digit}
use boost.Asio.Stream.{Hex, IsHex, spaces}
use boost.Tests.Requests.{hex_value, hex_value-hex_digit}

-- The digits of a number, with enough fuel if it is as large as the number.
unfoldable pub digits : (fuel : ℕ) → ℕ → Bytes
digits zero n = hex_digit n ∷ []
digits (suc fuel) n =
    let front = digits fuel (n / 16) in
    if ltb n 16 then hex_digit n ∷ [] else front ++ hex_digit (n % 16) ∷ []

unfoldable value : (front : ℕ) → Bytes → ℕ
unfolding hex_value
value front [] = front
value front (c ∷ s) = value (front * 16 + hex_value c) s

unfoldable pub read : Bytes → Option ℕ
unfolding value
read [] = none
read (c ∷ s) = elim (c == b' ') [ true ↦ read s | false ↦ some (value 0 (c ∷ s)) ]

abbrev pub streams : Hex
streams = record { to_hex = λ n. digits n n; read_short = read; read_long = read }

pow_pos_16 : (w : ℕ) → 0 < 16 ^ w
pow_pos_16 zero = omega arith
pow_pos_16 (suc w) = let rest = pow_pos_16 w in omega (arith, rest, pow-succ' 16 w)

length-digits_le : (fuel n w : ℕ) → n ≤ fuel → n < 16 ^ suc w → length (digits fuel n) ≤ suc w
unfolding digits
length-digits_le zero n w h k = omega arith
length-digits_le (suc fuel) n w h k = elim (Bool-cases (ltb n 16)) [
  | inl e ↦ rw e (omega arith)
  | inr e ↦ rw e (
      elim w
          as (λ w.
            n < 16 ^ suc w → length (digits fuel (n / 16) ++ hex_digit (n % 16) ∷ []) ≤ suc w) [
              | zero ↦ λ k. let high : 16 ≤ n = ground arith in absurd (omega (arith, high))
              | suc v ↦ λ k.
                  let power = pow-succ' 16 (suc v) in
                  let small : n / 16 < 16 ^ suc v = omega (arith, power) in
                  let front = length-digits_le fuel (n / 16) v (omega (arith, h)) small in
                  omega
                    (arith, front, length-append (digits fuel (n / 16)) (hex_digit (n % 16) ∷ []))
            ]
        k)
]

length-digits_lt : (fuel n w : ℕ) → n ≤ fuel → 16 ^ w ≤ n → w < length (digits fuel n)
unfolding digits
length-digits_lt zero n zero h k = omega arith
length-digits_lt zero n (suc w) h k =
    let power = pow-succ' 16 w in let one = pow_pos_16 w in absurd (omega (arith, power, one))
length-digits_lt (suc fuel) n w h k = elim (Bool-cases (ltb n 16)) [
  | inl e ↦ rw e (
      elim w as (λ w. 16 ^ w ≤ n → w < 1) [
        | zero ↦ λ k. omega arith
        | suc v ↦ λ k.
            let power = pow-succ' 16 v in
            let one = pow_pos_16 v in
            let low : n < 16 = ground arith in absurd (omega (arith, power, one, low))
      ]
        k)
  | inr e ↦ rw e (
      elim w as (λ w. 16 ^ w ≤ n → w < length (digits fuel (n / 16) ++ hex_digit (n % 16) ∷ [])) [
        | zero ↦ λ k. omega (arith, length-append (digits fuel (n / 16)) (hex_digit (n % 16) ∷ []))
        | suc v ↦ λ k.
            let power = pow-succ' 16 v in
            let large : 16 ^ v ≤ n / 16 = omega (arith, power) in
            let front = length-digits_lt fuel (n / 16) v (omega (arith, h)) large in
            omega (arith, front, length-append (digits fuel (n / 16)) (hex_digit (n % 16) ∷ []))
      ]
        k)
]

value-append :
    (front : ℕ) (s : Bytes) (c : ℕ) → value front (s ++ c ∷ []) ≡ value front s * 16 + hex_value c
unfolding value
value-append front [] c = refl
value-append front (d ∷ s) c = value-append (front * 16 + hex_value d) s c

value-digits : (fuel n : ℕ) → n ≤ fuel → value 0 (digits fuel n) ≡ n
unfolding digits value
value-digits zero n h = let same = hex_value-hex_digit n (omega arith) in omega (arith, same)
value-digits (suc fuel) n h = elim (Bool-cases (ltb n 16)) [
  | inl e ↦
      let low : n < 16 = ground arith in
      let same = hex_value-hex_digit n low in rw e (omega (arith, same))
  | inr e ↦
      let front = value-digits fuel (n / 16) (omega arith) in
      let back = hex_value-hex_digit (n % 16) (omega arith) in
      rw e (
        value-append 0 (digits fuel (n / 16)) (hex_digit (n % 16)) ∙ rw (front, back) (omega arith))
]

-- The first byte of a text; no number starts with a space.
unfoldable starts : Bytes → ℕ
starts [] = b' '
starts (c ∷ s) = c

starts-digits : (fuel n : ℕ) (s : Bytes) → (starts (digits fuel n ++ s) == b' ') ≡ false
unfolding starts digits
starts-digits zero n s = ground arith
starts-digits (suc fuel) n s = elim (Bool-cases (ltb n 16)) [
  | inl e ↦ rw e (ground arith)
  | inr e ↦
      rw (e, append_assoc (digits fuel (n / 16)) (hex_digit (n % 16) ∷ []) s)
        (starts-digits fuel (n / 16) (hex_digit (n % 16) ∷ s))
]

read-spaces :
    (k : ℕ) (s : Bytes) → (starts s == b' ') ≡ false → read (spaces k ++ s) ≡ some (value 0 s)
unfolding read spaces starts
read-spaces zero [] h = absurd (cc)
read-spaces zero (c ∷ s) h = rw (h, read) refl
read-spaces (suc k) s h = read-spaces k s h

read-digits : (n k : ℕ) → read (spaces k ++ digits n n) ≡ some n
read-digits n k =
    let no_space : (starts (digits n n) == b' ') ≡ false =
      subst (λ s. (starts s == b' ') ≡ false) (append-nil (digits n n)) (starts-digits n n []) in
    read-spaces k (digits n n) no_space ∙ ap some (value-digits n n (omega arith))

narrow_digits : (n w : ℕ) → 0 < w → n < 16 ^ w → length (digits n n) ≤ w
narrow_digits n zero h k = absurd (omega arith)
narrow_digits n (suc w) h k = length-digits_le n n w (omega arith) k

pub streams-IsHex : IsHex streams
streams-IsHex = record {
  narrow = narrow_digits;
  wide = λ n w h. length-digits_lt n n w (omega arith) h;
  reads_short = λ n k h. read-digits n k;
  reads_long = λ n k h. read-digits n k;
}
