-- ===== src/Asio/Icmp/Checksum.antt =====
-- What a receiver computes over a message whose checksum `compute_checksum` set.
use boost.Prelude.{◌+◌, ◌*◌, ◌%◌, ◌^◌, ◌≡◌, ◌≤◌, ◌<◌, ◌∙◌, ℕ, [], ◌∷◌, Bytes, All, length, arith}
use boost.Asio.Icmp.IcmpHeader.{
  IcmpHeader, checksum, identifier, sequence_number, set_checksum, add_body, fold_sum,
  compute_checksum,
}

-- The sum of the body's 16-bit words, with no bound; a last odd byte is a high byte.
abbrev pub words_sum : Bytes → ℕ
words_sum [] = 0
words_sum (x ∷ []) = x * 256
words_sum (x ∷ (y ∷ body)) = x * 256 + y + words_sum body

-- The sum of the words of a message, the checksum's among them.
abbrev pub message_sum : IcmpHeader → Bytes → ℕ
message_sum h body =
    h.rep_0 * 256 + h.rep_1 + checksum h + identifier h + sequence_number h + words_sum body

add_body-words_sum :
    (sum : ℕ) (body : Bytes)
    → sum + words_sum body < 2 ^ 32
    → add_body sum body ≡ sum + words_sum body
unfolding add_body
add_body-words_sum sum [] h = omega arith
add_body-words_sum sum (x ∷ []) h = omega arith
add_body-words_sum sum (x ∷ (y ∷ body)) h =
    let next : ((sum + x * 256) % 2 ^ 32 + y) % 2 ^ 32 ≡ sum + x * 256 + y = omega arith in
    rw next (add_body-words_sum (sum + x * 256 + y) body (omega arith) ∙ omega arith)

words_sum-le : (body : Bytes) → All (λ c. c < 256) body → words_sum body ≤ 65280 * length body
words_sum-le [] h = omega arith
words_sum-le (x ∷ []) h = omega (arith, h.0)
words_sum-le (x ∷ (y ∷ body)) h = omega (arith, h.0, h.1.0, words_sum-le body h.1.1)

fold_sum_lem :
    (sum : ℕ) → sum < 2 ^ 32 → (fold_sum sum < 2 ^ 16) × ((sum + fold_sum sum) % 65535 ≡ 0)
unfolding fold_sum
fold_sum_lem sum h = (omega arith, omega arith)

decoded_small : (h : IcmpHeader) → (identifier h < 2 ^ 16) × (sequence_number h < 2 ^ 16)
unfolding identifier sequence_number
decoded_small h = (omega arith, omega arith)

message_sum-set_checksum :
    (h : IcmpHeader) (body : Bytes) (n : ℕ)
    → n < 2 ^ 16
    → message_sum (set_checksum h n) body
      ≡ h.rep_0 * 256 + h.rep_1 + identifier h + sequence_number h + words_sum body + n
unfolding set_checksum checksum identifier sequence_number
message_sum-set_checksum h body n small = omega arith

-- For a message with a body of at most 65536 bytes, compute_checksum sets the checksum such that
-- the sum of all 16-bit words of the message, the checksum among them, is a multiple of 65535, as a
-- receiver verifies it.
pub compute_checksum-message_sum :
    (h : IcmpHeader) (body : Bytes)
    → h.rep_0 < 256
    → h.rep_1 < 256
    → All (λ c. c < 256) body
    → length body ≤ 65536
    → message_sum (compute_checksum h body) body % 65535 ≡ 0
unfolding compute_checksum
compute_checksum-message_sum h body type code bytes small =
    let words = words_sum-le body bytes in
    let header : ℕ = h.rep_0 * 256 + h.rep_1 + identifier h + sequence_number h in
    let parts : (identifier h < 2 ^ 16) × (sequence_number h < 2 ^ 16) = decoded_small h in
    let bounded : header + words_sum body < 2 ^ 32 = omega arith in
    let start : header % 2 ^ 32 ≡ header = omega arith in
    let added : add_body (header % 2 ^ 32) body ≡ header + words_sum body =
      rw start (add_body-words_sum header body bounded) in
    let folded = fold_sum_lem (header + words_sum body) bounded in
    let checksum_set =
      message_sum-set_checksum h body (fold_sum (header + words_sum body)) folded.0 in
    rw (added, checksum_set) folded.1
