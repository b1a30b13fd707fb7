-- ===== src/Index/Counts.antt =====
-- The map of word counts of one document against a count of the words in its token lists.
use boost.Prelude.{
  ◌+◌, ◌≡◌, refl, ap, ◌∙◌, List, [], ◌∷◌, Option, none, some, ℕ, true, false, arith, ◌==◌,
  if◌then◌else◌, Bytes, equal, equal_iff, Bool-cases, inl, inr,
}
use mathlib.Core.Path.{ap₂}
use boost.Prelude.Dict.{
  lookup, modify, get_or, lookup-modify, HasDistinctKeys, modify-HasDistinctKeys,
}
use boost.Index.{
  WordCnt, DocInfo, Libraries, no_words, in_title, in_content, cut_word, count_words, word_counts,
}

-- How many tokens are `word` in lower case.
abbrev pub occurrences : Libraries → Bytes → List Bytes → ℕ
occurrences lib word [] = 0
occurrences lib word (t ∷ ts) =
    (if equal (lib.to_lower t) word then 1 else 0) + occurrences lib word ts

-- The entry of a word that occurs so often: none if it does not occur.
abbrev pub tally : ℕ → ℕ → Option WordCnt
tally t c = if t + c == 0 then none else some (record { title_cnt = t; content_cnt = c })

-- One round of a loop, at a word whose counts so far are known.
tally-in_title :
    (o : Option WordCnt) (t c : ℕ)
    → o ≡ tally t c
    → some (in_title (get_or no_words o)) ≡ tally (t + 1) c
tally-in_title o t c h = rw h (ground arith)

tally-in_content :
    (o : Option WordCnt) (t c : ℕ)
    → o ≡ tally t c
    → some (in_content (get_or no_words o)) ≡ tally t (c + 1)
tally-in_content o t c h = rw h (ground arith)

module _ (lib : Libraries) (increment : WordCnt → WordCnt) (x word : Bytes)
    (m : List (Bytes × WordCnt)) where
  abbrev round : List (Bytes × WordCnt)
  round = modify (lib.to_lower x) no_words increment m

  lookup_hit :
      equal (lib.to_lower x) word ≡ true
      → lookup word round ≡ some (increment (get_or no_words (lookup word m)))
  lookup_hit same =
      let here : lib.to_lower x ≡ word = (equal_iff _ _).0 same in
      lookup-modify (lib.to_lower x) word no_words increment m ∙ rw (same, here)

  lookup_miss : equal (lib.to_lower x) word ≡ false → lookup word round ≡ lookup word m
  lookup_miss other = lookup-modify (lib.to_lower x) word no_words increment m ∙ rw other

count_words-in_title :
    (lib : Libraries) (tokens : List Bytes) (m : List (Bytes × WordCnt)) (word : Bytes) (t c : ℕ)
    → lookup word m ≡ tally t c
    → lookup word (count_words lib in_title tokens m) ≡ tally (t + occurrences lib word tokens) c
unfolding count_words
count_words-in_title lib [] m word t c h = h ∙ ap (λ n. tally n c) (omega arith)
count_words-in_title lib (x ∷ tokens) m word t c h =
    elim (Bool-cases (equal (lib.to_lower x) word)) [
      | inl same ↦
          let now = lookup_hit lib in_title x word m same ∙ tally-in_title (lookup word m) t c h in
          count_words-in_title lib tokens _ word (t + 1) c now
          ∙ ap (λ n. tally n c) (rw same (omega arith))
      | inr other ↦
          count_words-in_title lib tokens _ word t c (lookup_miss lib in_title x word m other ∙ h)
          ∙ ap (λ n. tally n c) (rw other (omega arith))
    ]

count_words-in_content :
    (lib : Libraries) (tokens : List Bytes) (m : List (Bytes × WordCnt)) (word : Bytes) (t c : ℕ)
    → lookup word m ≡ tally t c
    → lookup word (count_words lib in_content tokens m) ≡ tally t (c + occurrences lib word tokens)
unfolding count_words
count_words-in_content lib [] m word t c h = h ∙ ap (λ n. tally t n) (omega arith)
count_words-in_content lib (x ∷ tokens) m word t c h =
    elim (Bool-cases (equal (lib.to_lower x) word)) [
      | inl same ↦
          let now =
            lookup_hit lib in_content x word m same ∙ tally-in_content (lookup word m) t c h in
          count_words-in_content lib tokens _ word t (c + 1) now
          ∙ ap (λ n. tally t n) (rw same (omega arith))
      | inr other ↦
          count_words-in_content lib tokens _ word t c
            (lookup_miss lib in_content x word m other ∙ h)
          ∙ ap (λ n. tally t n) (rw other (omega arith))
    ]

count_words-HasDistinctKeys :
    (lib : Libraries) (increment : WordCnt → WordCnt) (tokens : List Bytes)
    (m : List (Bytes × WordCnt))
    → HasDistinctKeys m
    → HasDistinctKeys (count_words lib increment tokens m)
unfolding count_words
count_words-HasDistinctKeys lib increment [] m h = h
count_words-HasDistinctKeys lib increment (x ∷ tokens) m h =
    count_words-HasDistinctKeys lib increment tokens _
      (modify-HasDistinctKeys (lib.to_lower x) no_words increment m h)

pub word_counts-HasDistinctKeys :
    (lib : Libraries) (doc_info : DocInfo) → HasDistinctKeys (word_counts lib doc_info)
unfolding word_counts
word_counts-HasDistinctKeys lib doc_info =
    count_words-HasDistinctKeys lib in_content _ _
      (count_words-HasDistinctKeys lib in_title _ [] tt)

-- The map that BuildInverted counts in holds each word that occurs, in lower case, among the tokens
-- of the title or the content, with the number of its occurrences in each, and no other word.
pub lookup-word_counts :
    (lib : Libraries) (doc_info : DocInfo) (word : Bytes)
    → lookup word (word_counts lib doc_info)
      ≡ tally
          (occurrences lib word (cut_word lib doc_info.title))
          (occurrences lib word (cut_word lib doc_info.content))
unfolding word_counts lookup
lookup-word_counts lib doc_info word =
    let titles = count_words-in_title lib (cut_word lib doc_info.title) [] word 0 0 refl in
    count_words-in_content lib (cut_word lib doc_info.content) _ word _ 0 titles
    ∙ ap₂ tally (omega arith) (omega arith)
