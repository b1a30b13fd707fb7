-- ===== src/Parser.antt =====
-- doc_searcher/parser/parser.cc: the preprocessor, which turns the html files below a directory
-- into one text file, a line for each document. Boost.Filesystem is an argument.
pub mod Title
pub mod Content
pub mod Pipeline
use boost.Prelude.{
  ◌+◌, ◌-◌, Bool, true, false, not, List, [], ◌∷◌, ◌++◌, Option, none, some, ℕ, ◌==◌, leb,
  if◌then◌else◌, length, Bytes, codes, equal, find, find_from, substr, substr_from,
}
use boost.Util.{FileSystem, read}

pub record DocInfo : Type 0 where
  pub title : Bytes
  pub url : Bytes
  pub content : Bytes

-- What a call that returns a `bool` and fills an output leaves: the output of a call that returned
-- true, a call that returned false, or a `std::out_of_range` that nothing catches.
pub data Result {ℓ} (A : Type ℓ) : Type ℓ where
  ok : A → Result A
  failed out_of_range : Result A

infixl 5 ◌>>=◌
abbrev pub ◌>>=◌ {ℓ κ} : {A : Type ℓ} {B : Type κ} → Result A → (A → Result B) → Result B
ok a >>= f = f a
failed >>= f = failed
out_of_range >>= f = out_of_range

-- The value of a `substr`, which throws past the end.
abbrev pub or_throw {ℓ} : {A : Type ℓ} → Option A → Result A
or_throw none = out_of_range
or_throw (some a) = ok a

abbrev pub g_input_path : Bytes
g_input_path = codes "../data/input/"

abbrev pub g_output_path : Bytes
g_output_path = codes "../data/tmp/raw_input.txt"

abbrev pub g_url_head : Bytes
g_url_head = codes "https://www.boost.org/doc/libs/1_53_0/doc/"

abbrev pub open_tag : Bytes
open_tag = codes "<title>"

abbrev pub close_tag : Bytes
close_tag = codes "</title>"

-- One entry that the recursive iterator visits.
pub record Entry : Type 0 where
  pub path : Bytes
  pub is_regular_file : Bool

-- `boost::filesystem`: `exists`, the entries below a directory in the iterator's order, and
-- `path::extension`.
pub record BoostFilesystem : Type 0 where
  pub exists : Bytes → Bool
  pub walk : Bytes → List Entry
  pub extension : Bytes → Bytes

-- The loop of `EnumFile`.
unfoldable pub collect : (Bytes → Bytes) → List Entry → List Bytes → List Bytes
collect extension [] file_list = file_list
collect extension (entry ∷ rest) file_list = collect extension rest (
    if not entry.is_regular_file
    then file_list
    else if not (equal (extension entry.path) (codes ".html"))
    then file_list
    else file_list ++ entry.path ∷ [])

unfoldable pub enum_file : BoostFilesystem → Bytes → List Bytes → Result (List Bytes)
enum_file dir input_path file_list =
    if not (dir.exists input_path)
    then failed
    else ok (collect dir.extension (dir.walk input_path) file_list)

-- `ParseTitle` behind the two searches, at the places that they found.
unfoldable pub title_between : Bytes → ℕ → ℕ → Result Bytes
title_between html begin end =
    let start = begin + length open_tag in
    if leb end start then failed else or_throw (substr html start (end - start))

unfoldable pub parse_title : Bytes → Result Bytes
unfolding title_between
parse_title html = elim (find open_tag html) [
  | none ↦ failed
  | some begin ↦ elim (find_from close_tag begin html) [
    | none ↦ failed
    | some end ↦ title_between html begin end
  ]
]

unfoldable pub parse_url : Bytes → Result Bytes
parse_url file_path = do
  url_tail ← or_throw (substr_from file_path (length g_input_path))
  ok (g_url_head ++ url_tail)

-- The loop of `ParseContent`, with its flag `is_content` and the content so far.
unfoldable pub content_from : Bool → Bytes → Bytes → Bytes
content_from is_content content [] = content
content_from true content (c ∷ html) =
    content_from (not (c == b'<'))
      (if c == b'<' then content else content ++ (if c == b'\n' then b' ' else c) ∷ []) html
content_from false content (c ∷ html) = content_from (c == b'>') content html

unfoldable pub parse_content : Bytes → Result Bytes
parse_content html = ok (content_from true [] html)

unfoldable pub parse_file : FileSystem → Bytes → Result DocInfo
parse_file fs file_path =
    let (ret, html) = read fs file_path [] in
    if not ret then failed else do
      title ← parse_title html
      url ← parse_url file_path
      content ← parse_content html
      ok (record { title = title; url = url; content = content })

-- The output stream as the bytes written to it.
unfoldable pub write_output : DocInfo → Bytes → Bytes
write_output doc_info ofstream =
    ofstream ++ (doc_info.title ++ (3 ∷ (doc_info.url ++ (3 ∷ (doc_info.content ++ b'\n' ∷ [])))))

-- How a run of the program ends: with an exit status, or by the exception that reaches `main`; and
-- what stands in the output file then.
pub data Exit : Type 0 where
  exited : ℕ → Bytes → Exit
  terminated : Bytes → Exit

-- The loop of `main` over the files.
unfoldable pub process : FileSystem → List Bytes → Bytes → Exit
process fs [] output = exited 0 output
process fs (file_path ∷ rest) output = elim (parse_file fs file_path) [
  | ok doc_info ↦ process fs rest (write_output doc_info output)
  | failed ↦ process fs rest output
  | out_of_range ↦ terminated output
]

-- `main`. The last argument is whether the output file opens.
unfoldable pub main : FileSystem → BoostFilesystem → Bool → Exit
unfolding enum_file
main fs dir is_open = elim (enum_file dir g_input_path []) [
  | ok file_list ↦ if not is_open then exited 1 [] else process fs file_list []
  | _ ↦ exited 1 []
]
