-- ===== src/Pipeline.antt =====
-- The two programs together: doc_searcher/parser/parser.cc writes the file that
-- `searcher::Index::Build` of doc_searcher/searcher/searcher.cc reads.
use boost.Prelude.{
  ◌+◌, ◌≡◌, ◌≢◌, ◌∙◌, refl, sym, ap, true, List, [], ◌∷◌, ◌++◌, some, ℕ, arith, Bytes, All,
  All-append, map, append_assoc, length,
}
use mathlib.Core.List.{map-append}
use boost.Prelude.Int.{pos}
use boost.Prelude.Streams.{lines, unlines, IsLine, lines-unlines}
use boost.Util.{FileSystem, BoostSplit, HasNo, IsSplit, split}
use boost.Parser
use boost.Parser.{g_input_path, g_output_path, BoostFilesystem, exited, main}
use boost.Parser.Pipeline.{record_line, parsed, pages, IsBelow, main_written}
use boost.Index
use boost.Index.{Libraries, VisitsAll, empty, build}
use boost.Index.Build.{document, documents, build_opened}

-- The byte 3 between the fields, and no other.
abbrev separator : Bytes
separator = 3 ∷ []

-- A field that the format can hold.
abbrev pub IsField : Bytes → Type 0
IsField s = HasNo separator s × IsLine s

-- A document that the format can hold: no field has a separator or a newline.
pub record IsRecord (d : Parser.DocInfo) : Type 0 where
  pub title : IsField d.title
  pub url : IsField d.url
  pub content : IsField d.content

-- A written document as it is indexed at a place.
abbrev pub indexed : ℕ → Parser.DocInfo → Index.DocInfo
indexed n d = record { doc_id = pos n; title = d.title; url = d.url; content = d.content }

abbrev pub numbered : ℕ → List Parser.DocInfo → List Index.DocInfo
numbered n [] = []
numbered n (d ∷ ds) = indexed n d ∷ numbered (n + 1) ds

not-HasNo : HasNo separator separator → ⊥
not-HasNo h = h.0.0 refl

module _ (boost_split : BoostSplit) (laws : IsSplit boost_split) where
  split_fields :
      (a b c : Bytes)
      → HasNo separator a
      → HasNo separator b
      → HasNo separator c
      → split boost_split (a ++ (3 ∷ (b ++ (3 ∷ c)))) separator ≡ a ∷ b ∷ c ∷ []
  unfolding split
  split_fields a b c ha hb hc =
      laws.first a (b ++ (3 ∷ c)) separator 3 ha not-HasNo
      ∙ ap (◌∷◌ a) (laws.first b c separator 3 hb not-HasNo ∙ ap (◌∷◌ b) (laws.last c separator hc))

  -- What is written between two newlines is indexed as it was.
  document_of_record :
      (n : ℕ) (d : Parser.DocInfo)
      → IsRecord d
      → document n (split boost_split (record_line d) separator) ≡ indexed n d ∷ []
  document_of_record n d h =
      ap (document n) (split_fields d.title d.url d.content h.title.0 h.url.0 h.content.0)

module _ (lib : Libraries) (laws : IsSplit lib.boost_split) where
  documents_of_records :
      (n : ℕ) (ds : List Parser.DocInfo)
      → All IsRecord ds
      → documents lib n (map record_line ds) ≡ numbered n ds
  documents_of_records n [] h = refl
  documents_of_records n (d ∷ ds) (p, h) =
      rw (document_of_record lib.boost_split laws n d p)
        (ap (◌∷◌ (indexed n d)) (documents_of_records (n + 1) ds h))

record_line-IsLine : (d : Parser.DocInfo) → IsRecord d → IsLine (record_line d)
record_line-IsLine d h =
    let tail =
      All-append (λ c. c ≢ b'\n') d.url (3 ∷ d.content) h.url.1 (omega arith, h.content.1) in
    All-append (λ c. c ≢ b'\n') d.title (3 ∷ (d.url ++ (3 ∷ d.content))) h.title.1
      (omega arith, tail)

map-IsLine : (ds : List Parser.DocInfo) → All IsRecord ds → All IsLine (map record_line ds)
map-IsLine [] h = tt
map-IsLine (d ∷ ds) (p, h) = (record_line-IsLine d p, map-IsLine ds h)

-- If the preprocessor runs on an input directory that exists, with an output file that opens, on
-- paths that all lie below that directory, if no field of a document that parses holds the byte 3
-- or a newline, and if the file that it wrote is the one that Build opens, then Build on a new
-- index returns true and the forward index holds exactly the parsed documents, numbered in order.
-- The splitter is assumed to split at every separator, and the visit of a map to visit each entry
-- once.
pub build-main :
    (lib : Libraries) (fs : FileSystem) (dir : BoostFilesystem) (after : FileSystem)
    (output : Bytes)
    → VisitsAll lib
    → IsSplit lib.boost_split
    → dir.exists g_input_path ≡ true
    → All IsBelow (pages dir g_input_path)
    → All IsRecord (parsed fs (pages dir g_input_path))
    → main fs dir true ≡ exited 0 output
    → after g_output_path ≡ some output
    → ((build lib after g_output_path empty).1 ≡ true)
      × ((build lib after g_output_path empty).0.forward_index
          ≡ numbered 0 (parsed fs (pages dir g_input_path)))
build-main lib fs dir after output visits laws exists below records ran stored =
    let ds = parsed fs (pages dir g_input_path) in
    let wrote : output ≡ unlines (map record_line ds) =
      ground (arith, main_written fs dir exists below) in
    let read_back : lines output ≡ map record_line ds =
      ap lines wrote ∙ lines-unlines (map record_line ds) (map-IsLine ds records) in
    let built = build_opened lib visits after g_output_path stored in
    (built.0, built.1 ∙ ap (documents lib 0) read_back ∙ documents_of_records lib laws 0 ds records)

-- A line with no separator gives no document, and takes no number.
documents_skip :
    (lib : Libraries) (n : ℕ) (line : Bytes) (before : List Parser.DocInfo) (rest : List Bytes)
    → IsSplit lib.boost_split
    → HasNo separator line
    → documents lib n (map record_line before ++ line ∷ rest)
      ≡ documents lib n (map record_line before ++ rest)
unfolding split
documents_skip lib n line [] rest laws h =
    let alone : lib.boost_split line separator ≡ line ∷ [] = laws.last line separator h in
    let same : n + 0 ≡ n = omega arith in rw alone (ap (λ k. documents lib k rest) same)
documents_skip lib n line (d ∷ before) rest laws h =
    let here = document n (split lib.boost_split (record_line d) separator) in
    ap (λ l. here ++ l) (documents_skip lib (n + length here) line before rest laws h)

-- A title that holds a newline makes two lines.
module _ (d : Parser.DocInfo) (front back : Bytes) (title : d.title ≡ front ++ b'\n' ∷ back) where
  abbrev cut : Parser.DocInfo
  cut = record d { title = back }

  record_line-cut : record_line d ≡ front ++ (b'\n' ∷ record_line cut)
  record_line-cut =
      ap (λ t. t ++ (3 ∷ (d.url ++ (3 ∷ d.content)))) title ∙ append_assoc front (b'\n' ∷ back) _

  unlines-cut :
      (before after : List Bytes)
      → unlines (before ++ record_line d ∷ after)
        ≡ unlines (before ++ (front ∷ (record_line cut ∷ after)))
  unfolding unlines
  unlines-cut [] after =
      ap (λ l. l ++ (b'\n' ∷ unlines after)) record_line-cut
      ∙ append_assoc front (b'\n' ∷ record_line cut) (b'\n' ∷ unlines after)
  unlines-cut (line ∷ before) after = ap (λ s. line ++ (b'\n' ∷ s)) (unlines-cut before after)

  lines-cut :
      (before after : List Parser.DocInfo)
      → All IsRecord before
      → All IsRecord after
      → IsLine front
      → IsRecord cut
      → lines (unlines (map record_line (before ++ d ∷ after)))
        ≡ map record_line before ++ (front ∷ map record_line (cut ∷ after))
  lines-cut before after hb ha hf hc =
      let whole = map record_line before ++ (front ∷ map record_line (cut ∷ after)) in
      let all : All IsLine whole =
        All-append IsLine (map record_line before) (front ∷ map record_line (cut ∷ after))
          (map-IsLine before hb) (hf, map-IsLine (cut ∷ after) (hc, ha)) in
      ap (λ l. lines (unlines l)) (map-append record_line before (d ∷ after))
      ∙ ap lines (unlines-cut (map record_line before) (map record_line after))
      ∙ lines-unlines whole all

-- If the preprocessor runs on an input directory that exists, with an output file that opens, on
-- paths that all lie below that directory, if one of the documents that parse has a newline in its
-- title and, but for that newline, no field of any of them holds the byte 3 or a newline, and if the
-- file that it wrote is the one that Build opens, then Build on a new index returns true and the
-- forward index holds exactly the parsed documents, numbered in order, but that one with only what
-- stands behind the newline as its title. The splitter is assumed to split at every separator, and
-- the visit of a map to visit each entry once.
pub newline_title :
    (lib : Libraries) (fs : FileSystem) (dir : BoostFilesystem) (after_run : FileSystem)
    (output : Bytes) (before after : List Parser.DocInfo) (d : Parser.DocInfo) (front back : Bytes)
    → VisitsAll lib
    → IsSplit lib.boost_split
    → dir.exists g_input_path ≡ true
    → All IsBelow (pages dir g_input_path)
    → parsed fs (pages dir g_input_path) ≡ before ++ d ∷ after
    → All IsRecord before
    → All IsRecord after
    → d.title ≡ front ++ b'\n' ∷ back
    → IsField front
    → IsRecord (record d { title = back })
    → main fs dir true ≡ exited 0 output
    → after_run g_output_path ≡ some output
    → ((build lib after_run g_output_path empty).1 ≡ true)
      × ((build lib after_run g_output_path empty).0.forward_index
          ≡ numbered 0 (before ++ record d { title = back } ∷ after))
newline_title lib fs dir after_run output before after d front back visits laws exists below found
      hb ha title hf hc ran stored =
    let shown : Parser.DocInfo = record d { title = back } in
    let wrote : output ≡ unlines (map record_line (parsed fs (pages dir g_input_path))) =
      ground (arith, main_written fs dir exists below) in
    let read_back =
      ap lines wrote
      ∙ ap (λ ds. lines (unlines (map record_line ds))) found
      ∙ lines-cut d front back title before after hb ha hf.1 hc in
    let built = build_opened lib visits after_run g_output_path stored in
    (
      built.0,
      built.1
          ∙ ap (documents lib 0) read_back
          ∙ documents_skip lib 0 front before (map record_line (shown ∷ after)) laws hf.0
          ∙ ap (documents lib 0) (sym (map-append record_line before (shown ∷ after)))
          ∙ documents_of_records lib laws 0 (before ++ shown ∷ after)
              (All-append IsRecord before (shown ∷ after) hb (hc, ha)),
    )
