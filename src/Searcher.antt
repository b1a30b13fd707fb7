-- ===== src/Searcher.antt =====
-- The class `Searcher` of doc_searcher/searcher/searcher.cc: the search over an index, and the
-- excerpt of each result. `std::sort` and jsoncpp are arguments.
pub mod Excerpt
pub mod Search
use mathlib.Core.List.{Permᴰ}
use boost.Prelude.{
  ◌+◌, ◌-◌, ◌≤◌, Bool, List, [], ◌∷◌, ◌++◌, Option, none, some, ℕ, ltb, leb, if◌then◌else◌, length,
  set, All, Bytes, codes, find, substr, substr_from,
}
use boost.Util.{FileSystem}
use boost.Index.{
  Weight, InvertedList, DocInfo, Index, Libraries, get_doc_info, get_inverted_list, cut_word, build,
}

infixl 5 ◌>>=◌
abbrev pub ◌>>=◌ {ℓ κ} : {A : Type ℓ} {B : Type κ} → Option A → (A → Option B) → Option B
none >>= f = none
some a >>= f = f a

-- `desc[desc.size() - 1] = '.'`, and the two bytes before it.
unfoldable pub dotted : Bytes → Bytes
dotted desc =
    let one = set desc (length desc - 1) b'.' in
    let two = set one (length one - 2) b'.' in set two (length two - 3) b'.'

-- `GenerateDesc`; `none` is an exception of `substr`.
unfoldable pub generate_desc : Bytes → Bytes → Option Bytes
generate_desc content word = elim (find word content) [
  | none ↦
      if ltb (length content) 160
      then some content
      else do desc ← substr content 0 160; some (dotted desc)
  | some first_pos ↦
      let desc_beg = if ltb first_pos 60 then 0 else first_pos - 60 in
      if leb (length content) (desc_beg + 160)
      then substr_from content desc_beg
      else do desc ← substr content desc_beg 160; some (dotted desc)
]

-- jsoncpp over its type of values: the null value, `value[key] = text`, `append` and
-- `FastWriter::write`.
pub record Json (Value : Type 0) : Type 0 where
  pub null : Value
  pub assign : Value → Bytes → Bytes → Value
  pub append : Value → Value → Value
  pub write : Value → Bytes

-- Heavier postings stand first.
abbrev pub IsRanked : List Weight → Type 0
IsRanked [] = Unit
IsRanked (w ∷ l) = All (λ v. v.weight ≤ w.weight) l × IsRanked l

-- What the standard says of `std::sort` with this comparison: the same elements, in its order. The
-- order of equal elements is open.
pub record IsSort (sort : List Weight → List Weight) : Type 0 where
  pub same : (l : List Weight) → Permᴰ l (sort l)
  pub ranked : (l : List Weight) → IsRanked (sort l)

-- `Searcher::Init`.
unfoldable pub init : Libraries → FileSystem → Bytes → Index → Index × Bool
init lib fs input_path index = build lib fs input_path index

-- The loop over the tokens of the query.
unfoldable pub gather : Libraries → Index → List Bytes → List Weight → List Weight
gather lib index [] all_token_result = all_token_result
gather lib index (word ∷ rest) all_token_result =
    gather lib index rest (elim (get_inverted_list index (lib.to_lower word)) [
      | none ↦ all_token_result
      | some inverted_list ↦ all_token_result ++ inverted_list
    ])

module _ {Value : Type 0} (json : Json Value) where
  -- One result of the loop that builds the answer, of a document that is at hand.
  unfoldable pub make_result : DocInfo → Bytes → Value
  make_result doc_info desc =
      json.assign
        (json.assign (json.assign json.null (codes "title") doc_info.title) (codes "url")
          doc_info.url)
        (codes "desc") desc

  -- That loop; `none` is the use of a null pointer, or an exception.
  unfoldable pub append_results : Index → List Weight → Value → Option Value
  append_results index [] results = some results
  append_results index (weight ∷ rest) results = do
    doc_info ← get_doc_info index weight.doc_id
    desc ← generate_desc doc_info.content weight.word
    append_results index rest (json.append results (make_result doc_info desc))

  -- `Search`: what stands in `*output` at the end.
  unfoldable pub search : Libraries → (List Weight → List Weight) → Index → Bytes → Option Bytes
  search lib sort index query = do
    results ← append_results index (sort (gather lib index (cut_word lib query) [])) json.null
    some (json.write results)
