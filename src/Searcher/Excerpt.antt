-- ===== src/Searcher/Excerpt.antt =====
-- `GenerateDesc`: it always returns, with an excerpt of bounded size that shows the word.
use boost.Prelude.{
  ◌+◌, ◌-◌, ◌≡◌, ◌≤◌, refl, sym, ap, ◌∙◌, zero, suc, Bool, true, false, [], ◌∷◌, ◌++◌, none, some,
  ℕ, arith, ltb, leb, if◌then◌else◌, Bytes, codes, Bool-cases, Option-cases, inl, inr, length, set,
  take, drop, take-append_le, drop-append_le, find, substr, substr_from, append_assoc,
  length-append, length-take, length-drop,
}
use boost.Prelude.Find.{find-Hit, find-le_length}
use boost.Searcher.{dotted, generate_desc}

length-set : (xs : Bytes) (i v : ℕ) → length (set xs i v) ≡ length xs
length-set [] i v = refl
length-set (x ∷ xs) zero v = refl
length-set (x ∷ xs) (suc i) v = ap suc (length-set xs i v)

set-append : (xs ys : Bytes) (i v : ℕ) → set (xs ++ ys) (length xs + i) v ≡ xs ++ set ys i v
set-append [] ys i v = ap (λ k. set ys k v) (omega arith)
set-append (x ∷ xs) ys i v =
    let shift : suc (length xs) + i ≡ suc (length xs + i) = omega arith in
    rw shift (ap (◌∷◌ x) (set-append xs ys i v))

-- A write counted from the end.
set_end :
    (front ys : Bytes) (k i v : ℕ)
    → length ys ≡ i + k
    → set (front ++ ys) (length (front ++ ys) - k) v ≡ front ++ set ys i v
set_end front ys k i v e =
    let place : length (front ++ ys) - k ≡ length front + i =
      omega (arith, length-append front ys) in
    ap (λ j. set (front ++ ys) j v) place ∙ set-append front ys i v

-- The last three bytes become dots.
dotted-append :
    (front : Bytes) (a b c : ℕ) → dotted (front ++ (a ∷ b ∷ c ∷ [])) ≡ front ++ codes "..."
unfolding dotted
dotted-append front a b c = rw (
  set_end front (a ∷ b ∷ c ∷ []) 1 2 b'.' refl,
  set_end front (a ∷ b ∷ b'.' ∷ []) 2 1 b'.' refl,
  set_end front (a ∷ b'.' ∷ b'.' ∷ []) 3 0 b'.' refl,
)

take-add_three :
    (n : ℕ) (s : Bytes)
    → 3 + n ≤ length s
    → (a b c : ℕ) × (take (n + 3) s ≡ take n s ++ (a ∷ b ∷ c ∷ []))
take-add_three zero (a ∷ b ∷ c ∷ s) h = (a, b, c, refl)
take-add_three (suc n) (x ∷ s) h =
    let (a, b, c, e) = take-add_three n s (omega arith) in
    let shift : suc n + 3 ≡ suc (n + 3) = omega arith in (a, b, c, rw shift (ap (◌∷◌ x) e))
take-add_three zero [] h = absurd (omega arith)
take-add_three zero (a ∷ []) h = absurd (omega arith)
take-add_three zero (a ∷ b ∷ []) h = absurd (omega arith)
take-add_three (suc n) [] h = absurd (omega arith)

-- The first 157 bytes, and the dots.
abbrev pub clipped : Bytes → Bytes
clipped s = take 157 s ++ codes "..."

dotted-take : (s : Bytes) → 160 ≤ length s → dotted (take 160 s) ≡ clipped s
dotted-take s h =
    let (a, b, c, e) = take-add_three 157 s h in ap dotted e ∙ dotted-append (take 157 s) a b c

module _ (content word : Bytes) where
  -- The word is not found: the excerpt starts the content.
  pub generate_desc_missed :
      find word content ≡ none
      → generate_desc content word
        ≡ some (if ltb (length content) 160 then content else clipped content)
  unfolding generate_desc substr
  generate_desc_missed missed = elim (Bool-cases (ltb (length content) 160)) [
    | inl short ↦ rw (missed, generate_desc, short)
    | inr long ↦
        let size : 160 ≤ length content = ground arith in
        let inside : ltb (length content) 0 ≡ false = ground arith in
        rw (missed, generate_desc, long, inside) (ap some (dotted-take content size))
  ]

  -- The word is found: the excerpt starts at most 60 bytes before it.
  pub generate_desc_found :
      {i : ℕ}
      → find word content ≡ some i
      → generate_desc content word
        ≡ some (
            if leb (length (drop (i - 60) content)) 160
            then drop (i - 60) content
            else clipped (drop (i - 60) content))
  unfolding generate_desc substr substr_from
  generate_desc_found {i} found =
      let start : (if ltb i 60 then 0 else i - 60) ≡ i - 60 = ground arith in
      let room = find-le_length word content found in
      let inside : ltb (length content) (i - 60) ≡ false = ground arith in
      let size = length-drop (i - 60) content in
      elim (Bool-cases (leb (length content) (i - 60 + 160))) [
        | inl short ↦
            let whole : leb (length (drop (i - 60) content)) 160 ≡ true = ground arith in
            rw (found, generate_desc, start, short, whole, inside)
        | inr long ↦
            let cut : leb (length (drop (i - 60) content)) 160 ≡ false = ground arith in
            let enough : 160 ≤ length (drop (i - 60) content) = ground arith in
            rw (found, generate_desc, start, long, cut, inside)
              (ap some (dotted-take (drop (i - 60) content) enough))
      ]

  length-clipped : (s : Bytes) → length (clipped s) ≤ 160
  length-clipped s = omega (arith, length-append (take 157 s) (codes "..."), length-take 157 s)

  length-either :
      (b : Bool) (s : Bytes)
      → (b ≡ true → length s ≤ 160)
      → length (if b then s else clipped s) ≤ 160
  length-either true s h = h refl
  length-either false s h = length-clipped s

  -- GenerateDesc never throws, and its excerpt has at most 160 bytes.
  pub generate_desc_total :
      (desc : Bytes) × (generate_desc content word ≡ some desc) × (length desc ≤ 160)
  generate_desc_total = elim (Option-cases (find word content)) [
    | inl missed ↦ (_, generate_desc_missed missed, length-either _ content (λ short. ground arith))
    | inr (i, found) ↦ (
      _,
      generate_desc_found found,
      length-either _ (drop (i - 60) content) (λ short. ground arith),
    )
  ]

-- A prefix that fits is kept by the clipping.
clipped-append :
    (a b : Bytes)
    → length a ≤ 157
    → clipped (a ++ b) ≡ a ++ (take (157 - length a) b ++ codes "...")
clipped-append a b h =
    ap (λ s. s ++ codes "...") (take-append_le 157 a b h)
    ∙ append_assoc a (take (157 - length a) b) (codes "...")

-- What follows the word in the excerpt.
abbrev after_word : Bool → Bytes → Bytes → Bytes
after_word true a behind = behind
after_word false a behind = take (157 - length a) behind ++ codes "..."

either-append :
    (b : Bool) (a word behind : Bytes)
    → length a + length word ≤ 157
    → (if b then a ++ (word ++ behind) else clipped (a ++ (word ++ behind)))
      ≡ a ++ (word ++ after_word b (a ++ word) behind)
either-append true a word behind h = refl
either-append false a word behind h =
    let size = length-append a word in
    ap clipped (sym (append_assoc a word behind))
    ∙ clipped-append (a ++ word) behind (omega arith)
    ∙ append_assoc a word _

-- If the content holds the word, and the word has at most 97 bytes, GenerateDesc returns an excerpt
-- that shows the word, behind at most 60 bytes.
pub generate_desc-shows :
    (content word : Bytes) {i : ℕ}
    → find word content ≡ some i
    → length word ≤ 97
    → (a b : Bytes) × (generate_desc content word ≡ some (a ++ (word ++ b))) × (length a ≤ 60)
generate_desc-shows content word {i} found h =
    let hit = find-Hit word content found in
    let a = drop (i - 60) hit.before in
    let size = length-drop (i - 60) hit.before in
    let near : length a ≤ 60 = omega (arith, hit.place) in
    let shown : drop (i - 60) content ≡ a ++ (word ++ hit.behind) =
      ap (drop (i - 60)) hit.splits
      ∙ drop-append_le (i - 60) hit.before (word ++ hit.behind) (omega (arith, hit.place)) in
    let b = leb (length (drop (i - 60) content)) 160 in
    (
      a,
      after_word b (a ++ word) hit.behind,
      generate_desc_found content word found
          ∙ ap (λ s. some (if b then s else clipped s)) shown
          ∙ ap some (either-append b a word hit.behind (omega arith)),
      near,
    )
