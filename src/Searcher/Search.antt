-- ===== src/Searcher/Search.antt =====
-- `Search` against the documents that were indexed: which results it gives, in which order, and
-- that it never uses a null pointer.
use mathlib.Core.List.{Permᴰ}
use boost.Prelude.{
  ◌+◌, ◌≡◌, refl, sym, ap, ◌∙◌, List, [], ◌∷◌, ◌++◌, Option, none, some, Bytes, codes, length, All,
  All-append, All-Permᴰ, append-nil, append_assoc, get_elem?, get_elem?-append_cons, length-append,
  subst,
}
use boost.Prelude.Streams.{lines}
use boost.Util.{FileSystem}
use boost.Index.{
  WordCnt, Weight, DocInfo, Index, Libraries, VisitsAll, empty, get_doc_info, get_inverted_list,
  cut_word, build,
}
use boost.Index.Counts.{occurrences, tally}
use boost.Index.Postings.{posting, postings, listed, weighed}
use boost.Index.Build.{
  IsNumbered, IsConsistent, empty-IsConsistent, documents, build-IsConsistent, build_opened,
  get_doc_info_iff,
}
use boost.Searcher.{
  Json, IsRanked, IsSort, generate_desc, init, gather, make_result, append_results, search,
}
use boost.Searcher.Excerpt.{generate_desc_total}

-- The postings of the words of a query over the documents, token by token.
abbrev pub hits : Libraries → List DocInfo → List Bytes → List Weight
hits lib docs [] = []
hits lib docs (token ∷ rest) = postings lib (lib.to_lower token) docs ++ hits lib docs rest

-- The posting's document is there.
abbrev pub IsFound : Index → Weight → Type 0
IsFound index w = (d : DocInfo) × (get_doc_info index w.doc_id ≡ some d)

abbrev IsLocated : Index → DocInfo → Type 0
IsLocated index d = get_doc_info index d.doc_id ≡ some d

All-IsLocated :
    (index : Index) (before docs : List DocInfo)
    → index.forward_index ≡ before ++ docs
    → IsNumbered (length before) docs
    → All (IsLocated index) docs
All-IsLocated index before [] e h = tt
All-IsLocated index before (d ∷ docs) e (p, h) =
    let place = ap (λ l. get_elem? l (length before)) e ∙ get_elem?-append_cons before docs d in
    let size : length (before ++ d ∷ []) ≡ length before + 1 = length-append before (d ∷ []) in
    (
      (get_doc_info_iff index d.doc_id d).1 (length before, p, place),
      All-IsLocated index (before ++ d ∷ []) docs (e ∙ sym (append_assoc before (d ∷ []) docs))
          (subst (λ n. IsNumbered n docs) (sym size) h),
    )

module _ (lib : Libraries) (index : Index) where
  posting-IsFound :
      (word : Bytes) (d : DocInfo) → IsLocated index d → All (IsFound index) (posting lib word d)
  posting-IsFound word d here = weighed-IsFound (
      tally (occurrences lib word (cut_word lib d.title))
        (occurrences lib word (cut_word lib d.content)))
    where
      weighed-IsFound : (o : Option WordCnt) → All (IsFound index) (weighed d.doc_id word o)
      weighed-IsFound none = tt
      weighed-IsFound (some c) = ((d, here), tt)

  postings-IsFound :
      (word : Bytes) (docs : List DocInfo)
      → All (IsLocated index) docs
      → All (IsFound index) (postings lib word docs)
  postings-IsFound word [] h = tt
  postings-IsFound word (d ∷ docs) (here, h) =
      All-append (IsFound index) (posting lib word d) (postings lib word docs)
        (posting-IsFound word d here) (postings-IsFound word docs h)

  hits-IsFound :
      (tokens : List Bytes) (docs : List DocInfo)
      → All (IsLocated index) docs
      → All (IsFound index) (hits lib docs tokens)
  hits-IsFound [] docs h = tt
  hits-IsFound (t ∷ tokens) docs h =
      All-append (IsFound index) (postings lib (lib.to_lower t) docs) (hits lib docs tokens)
        (postings-IsFound (lib.to_lower t) docs h) (hits-IsFound tokens docs h)

  -- The loop over the tokens gathers the hits.
  gather-hits :
      (docs : List DocInfo) (tokens : List Bytes) (acc : List Weight)
      → ((word : Bytes) → get_inverted_list index word ≡ listed (postings lib word docs))
      → gather lib index tokens acc ≡ acc ++ hits lib docs tokens
  unfolding gather
  gather-hits docs [] acc h = sym (append-nil acc)
  gather-hits docs (t ∷ tokens) acc h =
      let here = postings lib (lib.to_lower t) docs in
      let all = gather-hits docs tokens (acc ++ here) h in
      rw (h (lib.to_lower t)) (
        ap (gather lib index tokens) (taken here acc)
        ∙ all
        ∙ append_assoc acc here (hits lib docs tokens))
    where
      taken :
          (l acc : List Weight)
          → elim (listed l) [ none ↦ acc | some inverted_list ↦ acc ++ inverted_list ] ≡ acc ++ l
      taken [] acc = sym (append-nil acc)
      taken (w ∷ l) acc = refl

-- One result: a document, and the excerpt of it that is shown.
pub record Result : Type 0 where
  pub doc_info : DocInfo
  pub desc : Bytes

-- The results show the postings, in the same order: each the document with the posting's number,
-- and the excerpt for the posting's word.
abbrev pub Matches : Index → List Weight → List Result → Type 0
Matches index [] [] = Unit
Matches index (w ∷ ws) (r ∷ rs) =
    (get_doc_info index w.doc_id ≡ some r.doc_info)
    × (generate_desc r.doc_info.content w.word ≡ some r.desc)
    × Matches index ws rs
Matches index _ _ = ⊥

module _ {Value : Type 0} (json : Json Value) where
  -- A result as JSON: its title, url and excerpt under those keys.
  abbrev pub object : Result → Value
  object r =
      let titled = json.assign json.null (codes "title") r.doc_info.title in
      let placed = json.assign titled (codes "url") r.doc_info.url in
      json.assign placed (codes "desc") r.desc

  -- The JSON array of the results.
  abbrev pub answer : List Result → Value → Value
  answer [] results = results
  answer (r ∷ rs) results = answer rs (json.append results (object r))

  append_results-answer :
      (index : Index) (ws : List Weight) (results : Value)
      → All (IsFound index) ws
      → (rs : List Result) × Matches index ws rs
        × (append_results json index ws results ≡ some (answer rs results))
  unfolding append_results make_result
  append_results-answer index [] results h = ([], tt, refl)
  append_results-answer index (w ∷ ws) results ((d, found), h) =
      let (desc, shown, _) = generate_desc_total d.content w.word in
      let (rs, same, e) =
        append_results-answer index ws (json.append results (make_result json d desc)) h in
      (
        record { doc_info = d; desc = desc } ∷ rs,
        (found, shown, same),
        rw (found, append_results, shown) e,
      )

  module _ (lib : Libraries) (sort : List Weight → List Weight) (sorts : IsSort sort) where
    -- On a consistent index, with a sort that permutes and ranks, Search returns for every query:
    -- no pointer that it uses is null and no exception is thrown. What it writes is one result, of
    -- title, url and excerpt, for each posting of each token of the query, heaviest first.
    pub search_lem :
        (index : Index) (query : Bytes)
        → IsConsistent lib index
        → (ws : List Weight) × (rs : List Result) × Permᴰ
            (hits lib index.forward_index (cut_word lib query))
            ws
          × IsRanked ws
          × Matches index ws rs
          × (search json lib sort index query ≡ some (json.write (answer rs json.null)))
    unfolding search
    search_lem index query h =
        let tokens = cut_word lib query in
        let all = hits lib index.forward_index tokens in
        let gathered : gather lib index tokens [] ≡ all =
          gather-hits lib index index.forward_index tokens []
            (unfold get_inverted_list in h.holds) in
        let located = All-IsLocated index [] index.forward_index refl h.numbered in
        let found =
          All-Permᴰ (IsFound index) (sorts.same all)
            (hits-IsFound lib index tokens index.forward_index located) in
        let (rs, same, e) = append_results-answer index (sort all) json.null found in
        (sort all, rs, sorts.same all, sorts.ranked all, same, rw (gathered, e))

    -- After Init of a new index on a file that opens, Search returns for every query, and writes
    -- one result for each posting that the tokens of the query have over the documents of the lines
    -- of the file, heaviest first. The sort is assumed to permute and rank, and the visit of a map
    -- to visit each entry once.
    pub search-init :
        (fs : FileSystem) (input_path query : Bytes) {text : Bytes}
        → VisitsAll lib
        → fs input_path ≡ some text
        → (ws : List Weight) × (rs : List Result) × Permᴰ
            (hits lib (documents lib 0 (lines text)) (cut_word lib query))
            ws
          × IsRanked ws
          × Matches (init lib fs input_path empty).0 ws rs
          × (search json lib sort (init lib fs input_path empty).0 query
              ≡ some (json.write (answer rs json.null)))
    unfolding init
    search-init fs input_path query {text} visits opened =
        let index = (build lib fs input_path empty).0 in
        let consistent =
          build-IsConsistent lib visits fs input_path empty (empty-IsConsistent lib visits) in
        let (ws, rs, perm, ranked, same, e) = search_lem index query consistent in
        let docs = (build_opened lib visits fs input_path opened).1 in
        (ws, rs, subst (λ l. Permᴰ (hits lib l (cut_word lib query)) ws) docs perm, ranked, same, e)
