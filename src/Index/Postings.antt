-- ===== src/Index/Postings.antt =====
-- The inverted index against its specification: the postings of a word over the documents indexed.
use boost.Prelude.{
  ◌+◌, ◌*◌, ◌≡◌, refl, sym, ap, ◌∙◌, List, [], ◌∷◌, ◌++◌, Option, none, some, Bytes, equal,
  equal_iff, Bool-cases, inl, inr, append-nil, append_assoc,
}
use boost.Prelude.Int.{ℤ}
use boost.Prelude.Dict.{
  lookup, modify, get_or, lookup-modify, lookup-IsFresh, HasDistinctKeys, lookup-Permᴰ,
  Permᴰ-HasDistinctKeys,
}
use boost.Index.{
  WordCnt, InvertedList, DocInfo, Index, Libraries, VisitsAll, make_weight, cut_word, word_counts,
  insert_weights, build_inverted,
}
use boost.Index.Counts.{occurrences, tally, word_counts-HasDistinctKeys, lookup-word_counts}

-- The posting of a word that is counted: ten for each time in the title, one for each time in the
-- content.
abbrev pub weighed : ℤ → Bytes → Option WordCnt → InvertedList
weighed doc_id word none = []
weighed doc_id word (some c) =
    record { doc_id = doc_id; weight = 10 * c.title_cnt + c.content_cnt; word = word } ∷ []

-- The posting of a word for one document, if the document holds the word.
abbrev pub posting : Libraries → Bytes → DocInfo → InvertedList
posting lib word d = weighed d.doc_id word (
    tally (occurrences lib word (cut_word lib d.title))
      (occurrences lib word (cut_word lib d.content)))

-- The postings of a word, in the order of the documents.
abbrev pub postings : Libraries → Bytes → List DocInfo → InvertedList
postings lib word [] = []
postings lib word (d ∷ docs) = posting lib word d ++ postings lib word docs

pub postings-append :
    (lib : Libraries) (word : Bytes) (docs more : List DocInfo)
    → postings lib word (docs ++ more) ≡ postings lib word docs ++ postings lib word more
postings-append lib word [] more = refl
postings-append lib word (d ∷ docs) more =
    ap (λ l. posting lib word d ++ l) (postings-append lib word docs more)
    ∙ sym (append_assoc (posting lib word d) (postings lib word docs) (postings lib word more))

-- A word with no posting has no entry in the map.
abbrev pub listed : InvertedList → Option InvertedList
listed [] = none
listed (w ∷ l) = some (w ∷ l)

-- The map holds the postings of these documents, and nothing else.
abbrev pub HoldsPostings : Libraries → List (Bytes × InvertedList) → List DocInfo → Type 0
HoldsPostings lib inverted_index docs =
    (word : Bytes) → lookup word inverted_index ≡ listed (postings lib word docs)

-- An entry after a document whose count of the word is `o`.
abbrev extend : ℤ → Bytes → Option WordCnt → Option InvertedList → Option InvertedList
extend doc_id word none old = old
extend doc_id word (some c) old = some (get_or [] old ++ make_weight doc_id word c ∷ [])

lookup-insert_weights :
    (doc_id : ℤ) (word : Bytes) (es : List (Bytes × WordCnt))
    (inverted_index : List (Bytes × InvertedList))
    → HasDistinctKeys es
    → lookup word (insert_weights doc_id es inverted_index)
      ≡ extend doc_id word (lookup word es) (lookup word inverted_index)
unfolding insert_weights lookup
lookup-insert_weights doc_id word [] inverted_index h = refl
lookup-insert_weights doc_id word ((k, c) ∷ es) inverted_index (fresh, h) =
    let push = λ (l : InvertedList). l ++ make_weight doc_id k c ∷ [] in
    let rest = lookup-insert_weights doc_id word es (modify k [] push inverted_index) h in
    let step = lookup-modify k word [] push inverted_index in
    elim (Bool-cases (equal k word)) [
      | inl same ↦
          let here : k ≡ word = (equal_iff k word).0 same in
          let absent : lookup word es ≡ none = lookup-IsFresh word es (rw (← here) fresh) in
          rest ∙ rw (absent, step, same, here)
      | inr other ↦ rest ∙ rw (step, other)
    ]

extend-listed :
    (doc_id : ℤ) (word : Bytes) (o : Option WordCnt) (l : InvertedList)
    → extend doc_id word o (listed l) ≡ listed (l ++ weighed doc_id word o)
extend-listed doc_id word none l = rw append-nil
extend-listed doc_id word (some c) [] = refl
extend-listed doc_id word (some c) (w ∷ l) = refl

-- If the inverted index holds the postings of some documents, then behind BuildInverted it holds
-- those and, at the end of each list, the posting of the new document, in whatever order the words
-- were visited. The visit of a map is assumed to visit each entry once.
pub build_inverted-HoldsPostings :
    (lib : Libraries) (doc_info : DocInfo) (index : Index) (docs : List DocInfo)
    → VisitsAll lib
    → HoldsPostings lib index.inverted_index docs
    → HoldsPostings lib (build_inverted lib doc_info index).inverted_index (docs ++ doc_info ∷ [])
unfolding build_inverted
build_inverted-HoldsPostings lib d index docs visits h word =
    let counts = word_counts lib d in
    let distinct = word_counts-HasDistinctKeys lib d in
    let found = sym (lookup-Permᴰ word (visits counts) distinct) ∙ lookup-word_counts lib d word in
    lookup-insert_weights d.doc_id word (lib.visit counts) index.inverted_index
      (Permᴰ-HasDistinctKeys (visits counts) distinct)
    ∙ rw (found, h word)
        (extend-listed d.doc_id word _ (postings lib word docs)
          ∙ ap listed (
              ap (λ l. postings lib word docs ++ l) (sym (append-nil (posting lib word d)))
              ∙ sym (postings-append lib word docs (d ∷ []))))
