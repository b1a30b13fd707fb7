-- ===== src/Asio/Icmp/Accepted.antt =====
-- Which streams an IPv4 header is extracted from.
use boost.Prelude.{
  ◌⊎◌, ◌+◌, ◌-◌, ◌/◌, ◌%◌, ◌≡◌, ◌≤◌, ◌<◌, refl, ap, ℕ, zero, suc, true, false, ◌||◌, [], ◌∷◌, ◌++◌,
  ◌==◌, ltb, Bytes, length, take, drop, length-drop, drop-drop, arith, Bool-cases, inl, inr,
}
use boost.Asio.Icmp.Ipv4Header.{Stream, read, byte, version, header_length, extract}

-- A header of version 4 stands in front, as long as it says, with at least 20 bytes.
pub record IsHeader (ahead : Bytes) : Type 0 where
  pub fourth : version ahead ≡ 4
  pub enough : 20 ≤ header_length ahead
  pub whole : header_length ahead ≤ length ahead

-- The first byte is that of any front.
pub byte-take : (n i : ℕ) (s : Bytes) → i < n → byte (take n s) i ≡ byte s i
byte-take zero i s h = absurd (omega arith)
byte-take (suc n) i [] h = refl
byte-take (suc n) zero (c ∷ s) h = refl
byte-take (suc n) (suc i) (c ∷ s) h =
    let later = byte-take n i s (omega arith) in
    let next : (suc i == 0) ≡ false = ground arith in
    let same : suc i - 1 ≡ i = omega arith in rw (next, same) later

take_nil : (m : ℕ) → take {A = ℕ} m [] ≡ []
take_nil zero = refl
take_nil (suc m) = refl

take-append-take : (n m : ℕ) (s : Bytes) → take n s ++ take m (drop n s) ≡ take (n + m) s
take-append-take zero m s = ap (λ k. take k s) (omega arith)
take-append-take (suc n) m [] =
    let sum : suc n + m ≡ suc (n + m) = omega arith in rw (sum, take_nil m)
take-append-take (suc n) m (c ∷ s) =
    let sum : suc n + m ≡ suc (n + m) = omega arith in rw sum (ap (◌∷◌ c) (take-append-take n m s))

-- Extraction from a stream that has not failed.
pub extract_good :
    (s : Bytes)
    → IsHeader s
    → extract (record { ahead = s; failed = false })
      ≡ (take (header_length s) s, record { ahead = drop (header_length s) s; failed = false })
unfolding extract read version header_length
extract_good s good =
    let front = byte-take 20 0 s (omega arith) in
    let left = length-drop {A = ℕ} 20 s in
    let enough = good.enough in
    let whole = good.whole in
    let few : ltb (length s) 20 ≡ false = ground arith in
    let fourth : (byte s 0 / 16 % 16 == 4) ≡ true = ground (arith, good.fourth) in
    let fits : (ltb (header_length s) 20 || ltb 60 (header_length s)) ≡ false = ground arith in
    let options : ltb (length (drop 20 s)) (header_length s - 20) ≡ false = ground arith in
    let sum : 20 + (header_length s - 20) ≡ header_length s = omega arith in
    rw
      (
        front,
        fourth,
        fits,
        few,
        options,
        take-append-take 20 (header_length s - 20) s,
        drop-drop (header_length s - 20) 20 s,
        sum,
      )
      refl

pub extract_bad :
    (is : Stream) → (extract is).1.failed ≡ false → (is.failed ≡ false) × IsHeader is.ahead
unfolding extract read version header_length
extract_bad is h =
    let front = byte-take 20 0 is.ahead (omega arith) in
    let left = length-drop {A = ℕ} 20 is.ahead in ground arith

-- The extraction of an IPv4 header from a stream that has not failed either finds a header of
-- version 4, with at least 20 bytes and no more than the stream has, and then takes exactly that
-- header; or it finds none, and then the stream has failed.
pub extract_cases :
    (s : Bytes)
    → (IsHeader s
        × (extract (record { ahead = s; failed = false }) ≡ (
          take (header_length s) s,
          record { ahead = drop (header_length s) s; failed = false },
        )))
      ⊎ ((¬ IsHeader s) × ((extract (record { ahead = s; failed = false })).1.failed ≡ true))
extract_cases s = elim (Bool-cases (extract (record { ahead = s; failed = false })).1.failed) [
  | inl bad ↦ inr (λ front. cc (ap (λ r. r.1.failed) (extract_good s front), bad), bad)
  | inr fine ↦
      let front = (extract_bad (record { ahead = s; failed = false }) fine).1 in
      inl (front, extract_good s front)
]
