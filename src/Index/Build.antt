-- ===== src/Index/Build.antt =====
-- `Build`, `GetDocInfo` and `GetInvertedList`: the whole index against the lines of the file.
use boost.Prelude.{
  ◌+◌, ◌≡◌, refl, sym, ap, ◌∙◌, true, false, List, [], ◌∷◌, ◌++◌, none, some, ℕ, arith, Bytes, inl,
  inr, append-nil, append_assoc, length, Option-cases, get_elem?, length-append, get_elem?-none,
  ◌↔◌,
}
use boost.Prelude.Int.{ℤ, pos, negsuc}
use boost.Prelude.Dict.{lookup}
use boost.Prelude.Streams.{lines}
use boost.Util.{FileSystem, split}
use boost.Index.{
  DocInfo, Index, Libraries, VisitsAll, empty, get_doc_info, get_inverted_list, add_doc,
  build_forward, build_inverted, build_line, build_lines, build,
}
use boost.Index.Postings.{postings, listed, HoldsPostings, build_inverted-HoldsPostings}

-- The document of a line whose place in the forward index is `n`: none, if the line does not split
-- into three.
abbrev pub document : ℕ → List Bytes → List DocInfo
document n (title ∷ url ∷ content ∷ []) =
    record { doc_id = pos n; title = title; url = url; content = content } ∷ []
document n _ = []

-- The documents of the lines, numbered from `n`.
abbrev pub documents : Libraries → ℕ → List Bytes → List DocInfo
documents lib n [] = []
documents lib n (line ∷ rest) =
    let here = document n (split lib.boost_split line (3 ∷ [])) in
    here ++ documents lib (n + length here) rest

-- Every document's number is its place.
abbrev pub IsNumbered : ℕ → List DocInfo → Type 0
IsNumbered n [] = Unit
IsNumbered n (d ∷ docs) = (d.doc_id ≡ pos n) × IsNumbered (n + 1) docs

pub record IsConsistent (lib : Libraries) (index : Index) : Type 0 where
  pub numbered : IsNumbered 0 index.forward_index
  pub holds : HoldsPostings lib index.inverted_index index.forward_index

IsNumbered-append :
    (n m : ℕ) (docs : List DocInfo) (d : DocInfo)
    → IsNumbered n docs
    → n + length docs ≡ m
    → d.doc_id ≡ pos m
    → IsNumbered n (docs ++ d ∷ [])
IsNumbered-append n m [] d h e p = (p ∙ ap pos (omega arith), tt)
IsNumbered-append n m (x ∷ docs) d (q, h) e p =
    (q, IsNumbered-append (n + 1) m docs d h (omega arith) p)

-- One line: the forward index grows by its document, and the postings follow.
module _ (lib : Libraries) (visits : VisitsAll lib) where
  build_tokens : List Bytes → Index → Index
  build_tokens tokens index =
      let (forward, node) = add_doc tokens index in
      elim node [ none ↦ forward | some doc_info ↦ build_inverted lib doc_info forward ]

  build_tokens-forward_index :
      (tokens : List Bytes) (index : Index)
      → (build_tokens tokens index).forward_index
        ≡ index.forward_index ++ document (length index.forward_index) tokens
  unfolding build_tokens add_doc build_inverted
  build_tokens-forward_index (title ∷ url ∷ content ∷ []) index = refl
  build_tokens-forward_index _ index = sym (append-nil _)

  build_tokens-IsConsistent :
      (tokens : List Bytes) (index : Index)
      → IsConsistent lib index
      → IsConsistent lib (build_tokens tokens index)
  unfolding build_tokens add_doc
  build_tokens-IsConsistent (title ∷ url ∷ content ∷ []) index h =
      let size = length index.forward_index in
      let d : DocInfo = record { doc_id = pos size; title = title; url = url; content = content } in
      let forward : Index = record index { forward_index = index.forward_index ++ d ∷ [] } in
      record {
        numbered =
            unfold build_inverted in
            IsNumbered-append 0 size index.forward_index d h.numbered (omega arith) refl;
        holds =
            unfold build_inverted in
            build_inverted-HoldsPostings lib d forward index.forward_index visits h.holds;
      }
  build_tokens-IsConsistent _ index h = h

  build_lines-IsConsistent :
      (ls : List Bytes) (index : Index)
      → IsConsistent lib index
      → IsConsistent lib (build_lines lib ls index)
  unfolding build_lines build_line build_forward build_tokens
  build_lines-IsConsistent [] index h = h
  build_lines-IsConsistent (l ∷ ls) index h =
      build_lines-IsConsistent ls (build_line lib l index)
        (build_tokens-IsConsistent (split lib.boost_split l (3 ∷ [])) index h)

  build_lines-forward_index :
      (ls : List Bytes) (index : Index)
      → (build_lines lib ls index).forward_index
        ≡ index.forward_index ++ documents lib (length index.forward_index) ls
  unfolding build_lines build_line build_forward build_tokens
  build_lines-forward_index [] index = sym (append-nil index.forward_index)
  build_lines-forward_index (l ∷ ls) index =
      let tokens = split lib.boost_split l (3 ∷ []) in
      let old = index.forward_index in
      let new = document (length old) tokens in
      let one = build_tokens-forward_index tokens index in
      build_lines-forward_index ls (build_line lib l index)
      ∙ ap (λ f. f ++ documents lib (length f) ls) one
      ∙ append_assoc old new (documents lib (length (old ++ new)) ls)
      ∙ ap (λ n. old ++ (new ++ documents lib n ls)) (length-append old new)

  pub empty-IsConsistent : IsConsistent lib empty
  unfolding lookup
  empty-IsConsistent = record { numbered = tt; holds = λ w. refl }

  -- Build keeps an index consistent, whether or not the file opens: the documents are numbered by
  -- their places in the forward index, and the inverted index holds exactly their postings. The
  -- visit of a map is assumed to visit each entry once.
  pub build-IsConsistent :
      (fs : FileSystem) (input_path : Bytes) (index : Index)
      → IsConsistent lib index
      → IsConsistent lib (build lib fs input_path index).0
  unfolding build
  build-IsConsistent fs input_path index h = elim (Option-cases (fs input_path)) [
    | inl closed ↦ rw (closed, build) h
    | inr (text, opened) ↦ rw (opened, build) (build_lines-IsConsistent (lines text) index h)
  ]

  -- From a new index, Build returns true for a file that opens. Then the forward index holds the
  -- documents of the lines that split into three parts, numbered in order, and GetInvertedList
  -- gives for each word its postings over them, or null where there is none. The visit of a map is
  -- assumed to visit each entry once.
  pub build_opened :
      (fs : FileSystem) (input_path : Bytes) {text : Bytes}
      → fs input_path ≡ some text
      → ((build lib fs input_path empty).1 ≡ true)
        × ((build lib fs input_path empty).0.forward_index ≡ documents lib 0 (lines text))
        × ((word : Bytes)
            → get_inverted_list (build lib fs input_path empty).0 word
              ≡ listed (postings lib word (documents lib 0 (lines text))))
  unfolding build get_inverted_list
  build_opened fs input_path {text} opened =
      let docs = build_lines-forward_index (lines text) empty in
      (
        rw (opened, build),
        rw (opened, build) docs,
        λ word.
            rw (opened, build)
              ((build_lines-IsConsistent (lines text) empty empty-IsConsistent).holds word
                ∙ ap (λ l. listed (postings lib word l)) docs),
      )

-- A file that does not open: `Build` returns false and changes nothing.
pub build_closed :
    (lib : Libraries) (fs : FileSystem) (input_path : Bytes) (index : Index)
    → fs input_path ≡ none
    → build lib fs input_path index ≡ (index, false)
unfolding build
build_closed lib fs input_path index closed = rw (closed, build)

-- GetDocInfo gives the document at a place that the forward index has, and null for any other
-- number, negative ones included.
pub get_doc_info_iff :
    (index : Index) (doc_id : ℤ) (d : DocInfo)
    → (get_doc_info index doc_id ≡ some d)
      ↔ ((n : ℕ) × (doc_id ≡ pos n) × (get_elem? index.forward_index n ≡ some d))
unfolding get_doc_info
get_doc_info_iff index doc_id d = (to_place doc_id, λ (n, e, found). rw e (from_place n found))
  where
    to_place :
        (id : ℤ)
        → get_doc_info index id ≡ some d
        → (n : ℕ) × (id ≡ pos n) × (get_elem? index.forward_index n ≡ some d)
    to_place (pos n) e = (n, refl, ground arith)
    to_place (negsuc n) e = absurd (cc)

    from_place :
        (n : ℕ) → get_elem? index.forward_index n ≡ some d → get_doc_info index (pos n) ≡ some d
    from_place n found = ground (arith, get_elem?-none index.forward_index n)
