-- ===== src/Parser/Pipeline.antt =====
-- `ParseUrl`, `ParseFile`, `EnumFile` and `main`: what the preprocessor writes.
use boost.Prelude.{
  ◌+◌, ◌≡◌, ◌≢◌, ◌≤◌, ◌∙◌, refl, sym, ap, subst, true, false, ◌&&◌, List, [], ◌∷◌, ◌++◌, none, some,
  arith, if◌then◌else◌, length, ltb, Bytes, codes, equal, All, filter_b, map, append-nil,
  append_assoc, Option-cases, inl, inr, Bool, length-append, substr_from,
}
use boost.Prelude.Streams.{ends_line, unlines, unlines-append}
use boost.Util.{FileSystem}
use boost.Util.Laws.{read_opened, read_closed}
use boost.Parser.{
  DocInfo, Result, ok, failed, out_of_range, ◌>>=◌, g_input_path, g_url_head, Entry,
  BoostFilesystem, collect, enum_file, parse_title, parse_url, content_from, parse_content,
  parse_file, write_output, exited, process, main,
}
use boost.Parser.Title.{IsTitle, parse_title_iff, parse_title-ne-out_of_range}
use boost.Parser.Content.{IsPlain, parse_content-IsPlain}

-- A file below the input directory gets the address below the head; its path is cut at the length
-- of the directory, whatever stands there.
pub parse_url-append : (tail : Bytes) → parse_url (g_input_path ++ tail) ≡ ok (g_url_head ++ tail)
unfolding parse_url substr_from
parse_url-append tail =
    let inside : ltb (length (g_input_path ++ tail)) (length g_input_path) ≡ false =
      ground (arith, length-append g_input_path tail) in
    rw inside

-- It throws exactly for a path shorter than the directory's.
pub parse_url-throws :
    (path : Bytes) → length path + 1 ≤ length g_input_path → parse_url path ≡ out_of_range
unfolding parse_url substr_from
parse_url-throws path h =
    let outside : ltb (length path) (length g_input_path) ≡ true = ground arith in rw outside

-- The text that a file is parsed from: `Read` ends the last line.
abbrev pub as_read : Bytes → Bytes
as_read text = if ends_line text then text else text ++ b'\n' ∷ []

-- A document that was parsed: its title, address and content.
pub record IsParsed (text tail : Bytes) (d : DocInfo) : Type 0 where
  pub title : IsTitle (as_read text) d.title
  pub url : d.url ≡ g_url_head ++ tail
  pub content : parse_content (as_read text) ≡ ok d.content
  pub plain : All IsPlain d.content

module _ (fs : FileSystem) (tail : Bytes) where
  abbrev file_path : Bytes
  file_path = g_input_path ++ tail

  -- The document of a file whose title is known.
  abbrev document_of : Bytes → Bytes → DocInfo
  document_of text title = record {
    title = title;
    url = g_url_head ++ tail;
    content = content_from true [] (as_read text);
  }

  parse_file_closed : fs file_path ≡ none → parse_file fs file_path ≡ failed
  unfolding parse_file
  parse_file_closed closed = rw (read_closed fs file_path [] closed, parse_file)

  parse_file_opened :
      {text : Bytes}
      → fs file_path ≡ some text
      → parse_file fs file_path
        ≡ (parse_title (as_read text) >>= λ title. ok (document_of text title))
  unfolding parse_file parse_content
  parse_file_opened {text} opened =
      rw (read_opened fs file_path [] opened, parse_file, parse_url-append tail)

  -- ParseFile on a file whose path lies below the input directory never throws.
  pub parse_file-ne-out_of_range : parse_file fs file_path ≢ out_of_range
  parse_file-ne-out_of_range e = elim (Option-cases (fs file_path)) [
    | inl closed ↦ cc (parse_file_closed closed)
    | inr (text, opened) ↦
        no_throw text (parse_title (as_read text)) (parse_title-ne-out_of_range (as_read text))
          (sym (parse_file_opened opened) ∙ e)
  ]
    where
      no_throw :
          (text : Bytes) (r : Result Bytes)
          → r ≢ out_of_range
          → (r >>= λ title. ok (document_of text title)) ≢ out_of_range
      no_throw text (ok title) h same = cc
      no_throw text failed h same = cc
      no_throw text out_of_range h same = h refl

  -- Where ParseFile returns true for an input file that opens, the document has the title between
  -- the tags of the file as it was read, the address of the file below the head, and the content of
  -- the file, with no newline and no start of a tag.
  pub parse_file-IsParsed :
      {text : Bytes} (d : DocInfo)
      → fs file_path ≡ some text
      → parse_file fs file_path ≡ ok d
      → IsParsed text tail d
  parse_file-IsParsed {text} d opened e =
      from_title (parse_title (as_read text)) refl (sym (parse_file_opened opened) ∙ e)
    where
      from_title :
          (r : Result Bytes)
          → parse_title (as_read text) ≡ r
          → (r >>= λ title. ok (document_of text title)) ≡ ok d
          → IsParsed text tail d
      from_title (ok title) found same =
          let whole : document_of text title ≡ d = cc in
          let content : parse_content (as_read text) ≡ ok d.content =
            unfold parse_content in ap (λ x. ok x.content) whole in
          record {
            title =
                subst (λ x. IsTitle (as_read text) x.title) whole
                  ((parse_title_iff (as_read text) title).0 found);
            url = ap (λ x. x.url) (sym whole);
            content = content;
            plain = parse_content-IsPlain (as_read text) d.content content;
          }
      from_title failed found same = absurd (cc)
      from_title out_of_range found same = absurd (cc)

-- The files that `EnumFile` lists: the regular ones with the extension, in the iterator's order.
abbrev pub is_page : BoostFilesystem → Entry → Bool
is_page dir entry = entry.is_regular_file && equal (dir.extension entry.path) (codes ".html")

abbrev pub pages : BoostFilesystem → Bytes → List Bytes
pages dir root = map (λ entry. entry.path) (filter_b (is_page dir) (dir.walk root))

collect-pages :
    (dir : BoostFilesystem) (entries : List Entry) (file_list : List Bytes)
    → collect dir.extension entries file_list
      ≡ file_list ++ map (λ entry. entry.path) (filter_b (is_page dir) entries)
unfolding collect
collect-pages dir [] file_list = sym (append-nil file_list)
collect-pages dir (e ∷ entries) file_list = ground (
  arith,
  collect-pages dir entries file_list,
  collect-pages dir entries (file_list ++ e.path ∷ []),
  append_assoc file_list (e.path ∷ []) (map (λ entry. entry.path) (filter_b (is_page dir) entries)),
)

-- The line of a document, without its newline.
abbrev pub record_line : DocInfo → Bytes
record_line d = d.title ++ (3 ∷ (d.url ++ (3 ∷ d.content)))

-- The documents of the files that parse, in the order of the files.
abbrev pub parsed : FileSystem → List Bytes → List DocInfo
parsed fs [] = []
parsed fs (path ∷ rest) = elim (parse_file fs path) [
  | ok d ↦ d ∷ parsed fs rest
  | _ ↦ parsed fs rest
]

write_output-unlines :
    (d : DocInfo) (output : Bytes) → write_output d output ≡ output ++ unlines (record_line d ∷ [])
unfolding write_output unlines
write_output-unlines d output = simp append_assoc

-- Each path is below the input directory.
abbrev pub IsBelow : Bytes → Type 0
IsBelow path = (tail : Bytes) × (path ≡ g_input_path ++ tail)

process-parsed :
    (fs : FileSystem) (paths : List Bytes) (output : Bytes)
    → All IsBelow paths
    → process fs paths output ≡ exited 0 (output ++ unlines (map record_line (parsed fs paths)))
unfolding process
process-parsed fs [] output h = unfold unlines in ap (exited 0) (sym (append-nil output))
process-parsed fs (path ∷ paths) output ((tail, below), h) =
    one (parse_file fs path) refl (λ out. process-parsed fs paths out h)
  where
    one :
        (r : Result DocInfo)
        → parse_file fs path ≡ r
        → ((out : Bytes)
            → process fs paths out ≡ exited 0 (out ++ unlines (map record_line (parsed fs paths))))
        → process fs (path ∷ paths) output
          ≡ exited 0 (output ++ unlines (map record_line (parsed fs (path ∷ paths))))
    one (ok d) e rest =
        let line = unlines (record_line d ∷ []) in
        let more = map record_line (parsed fs paths) in
        rw (e, process, parsed, write_output-unlines d output)
          (rest (output ++ line)
            ∙ ap (exited 0) (
                append_assoc output line (unlines more)
                ∙ ap (λ l. output ++ l) (sym (unlines-append (record_line d ∷ []) more))))
    one failed e rest = rw (e, process, parsed) (rest output)
    one out_of_range e rest = absurd (parse_file-ne-out_of_range fs tail (rw (← below) e))

-- Run on an input directory that exists, with an output file that opens, and on paths that all lie
-- below that directory, the preprocessor exits with status 0 and has written one line for each
-- regular html file that parses, in the order of the iterator.
pub main_written :
    (fs : FileSystem) (dir : BoostFilesystem)
    → dir.exists g_input_path ≡ true
    → All IsBelow (pages dir g_input_path)
    → main fs dir true ≡ exited 0 (unlines (map record_line (parsed fs (pages dir g_input_path))))
unfolding main
main_written fs dir exists below =
    let listed = collect-pages dir (dir.walk g_input_path) [] in
    rw (exists, main, enum_file, listed) (process-parsed fs (pages dir g_input_path) [] below)

-- The preprocessor exits with status 1, and with nothing written, where the input directory is
-- missing or the output file does not open.
pub main_refused :
    (fs : FileSystem) (dir : BoostFilesystem) (is_open : Bool)
    → (dir.exists g_input_path && is_open) ≡ false
    → main fs dir is_open ≡ exited 1 []
unfolding main
main_refused fs dir is_open h = ground arith
