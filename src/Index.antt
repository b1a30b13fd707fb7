-- ===== src/Index.antt =====
-- doc_searcher/searcher/searcher.h and the class `Index` of searcher.cc: the forward index, a vector
-- of documents, and the inverted index, a hash map from each word to the documents that hold it.
-- cppjieba, Boost's `to_lower` and `split`, and the order in which a hash map is traversed, are
-- arguments.
pub mod Counts
pub mod Postings
pub mod Build
use mathlib.Core.List.{Permᴰ}
use boost.Prelude.{
  ◌+◌, ◌*◌, Bool, true, false, List, [], ◌∷◌, ◌++◌, Option, none, some, ℕ, leb, if◌then◌else◌,
  length, get_elem?, Bytes,
}
use boost.Prelude.Int.{ℤ, pos, negsuc}
use boost.Prelude.Dict.{lookup, modify}
use boost.Prelude.Streams.{lines}
use boost.Util.{FileSystem, BoostSplit, split}

pub record DocInfo : Type 0 where
  pub doc_id : ℤ
  pub title : Bytes
  pub url : Bytes
  pub content : Bytes

pub record Weight : Type 0 where
  pub doc_id : ℤ
  pub weight : ℕ
  pub word : Bytes

abbrev pub InvertedList : Type 0
InvertedList = List Weight

-- The members of the class but `jieba`.
pub record Index : Type 0 where
  pub forward_index : List DocInfo
  pub inverted_index : List (Bytes × InvertedList)

-- The local `WordCnt` of `BuildInverted`.
pub record WordCnt : Type 0 where
  pub title_cnt : ℕ
  pub content_cnt : ℕ

-- What the code calls and does not define: `jieba.CutForSearch`, `boost::to_lower`, `boost::split`,
-- and the order in which a range-for visits a hash map.
pub record Libraries : Type 0 where
  pub cut_for_search : Bytes → List Bytes
  pub to_lower : Bytes → Bytes
  pub boost_split : BoostSplit
  pub visit : List (Bytes × WordCnt) → List (Bytes × WordCnt)

-- A range-for visits each entry once.
abbrev pub VisitsAll : Libraries → Type 0
VisitsAll lib = (m : List (Bytes × WordCnt)) → Permᴰ m (lib.visit m)

-- `Index::Index`.
abbrev pub empty : Index
empty = record { forward_index = []; inverted_index = [] }

-- The test of `GetDocInfo` has compared `doc_id` with 0 before the size is read.
unfoldable pub get_doc_info : Index → ℤ → Option DocInfo
get_doc_info index (negsuc n) = none
get_doc_info index (pos n) =
    if leb (length index.forward_index) n then none else get_elem? index.forward_index n

unfoldable pub get_inverted_list : Index → Bytes → Option InvertedList
get_inverted_list index key = lookup key index.inverted_index

unfoldable pub cut_word : Libraries → Bytes → List Bytes
cut_word lib input = lib.cut_for_search input

-- `BuildForward` behind the split: the new index and the node, `none` for `nullptr`.
unfoldable pub add_doc : List Bytes → Index → Index × Option DocInfo
add_doc (title ∷ url ∷ content ∷ []) index =
    let doc_info : DocInfo = record {
      doc_id = pos (length index.forward_index);
      title = title;
      url = url;
      content = content;
    } in
    (record index { forward_index = index.forward_index ++ doc_info ∷ [] }, some doc_info)
add_doc _ index = (index, none)

unfoldable pub build_forward : Libraries → Bytes → Index → Index × Option DocInfo
unfolding add_doc
build_forward lib line index = add_doc (split lib.boost_split line (3 ∷ [])) index

abbrev pub no_words : WordCnt
no_words = record { title_cnt = 0; content_cnt = 0 }

abbrev pub in_title : WordCnt → WordCnt
in_title c = record c { title_cnt = c.title_cnt + 1 }

abbrev pub in_content : WordCnt → WordCnt
in_content c = record c { content_cnt = c.content_cnt + 1 }

-- The loops over `title_token` and `content_token`; the last argument but two is the increment.
unfoldable pub count_words :
    Libraries → (WordCnt → WordCnt) → List Bytes → List (Bytes × WordCnt) → List (Bytes × WordCnt)
count_words lib increment [] word_cnt_map = word_cnt_map
count_words lib increment (word ∷ rest) word_cnt_map =
    count_words lib increment rest (modify (lib.to_lower word) no_words increment word_cnt_map)

unfoldable pub word_counts : Libraries → DocInfo → List (Bytes × WordCnt)
word_counts lib doc_info =
    count_words lib in_content (cut_word lib doc_info.content)
      (count_words lib in_title (cut_word lib doc_info.title) [])

abbrev pub make_weight : ℤ → Bytes → WordCnt → Weight
make_weight doc_id word c = record {
  doc_id = doc_id;
  weight = 10 * c.title_cnt + c.content_cnt;
  word = word;
}

-- The loop over `word_cnt_map`.
unfoldable pub insert_weights :
    ℤ → List (Bytes × WordCnt) → List (Bytes × InvertedList) → List (Bytes × InvertedList)
insert_weights doc_id [] inverted_index = inverted_index
insert_weights doc_id ((word, c) ∷ rest) inverted_index =
    insert_weights doc_id rest
      (modify word [] (λ list. list ++ make_weight doc_id word c ∷ []) inverted_index)

unfoldable pub build_inverted : Libraries → DocInfo → Index → Index
build_inverted lib doc_info index = record index {
  inverted_index =
      insert_weights doc_info.doc_id (lib.visit (word_counts lib doc_info)) index.inverted_index;
}

-- The body of the loop of `Build` for one line.
unfoldable pub build_line : Libraries → Bytes → Index → Index
build_line lib line index =
    let (forward, node) = build_forward lib line index in
    elim node [ none ↦ forward | some doc_info ↦ build_inverted lib doc_info forward ]

unfoldable pub build_lines : Libraries → List Bytes → Index → Index
build_lines lib [] index = index
build_lines lib (line ∷ rest) index = build_lines lib rest (build_line lib line index)

-- `Build`; the file system is an argument.
unfoldable pub build : Libraries → FileSystem → Bytes → Index → Index × Bool
build lib fs input_path index = elim (fs input_path) [
  | none ↦ (index, false)
  | some text ↦ (build_lines lib (lines text) index, true)
]
