-- ===== src/Tests/Parsing.antt =====
-- The preprocessor, the index of what it wrote, and the server, on a small directory.
use boost.Prelude.{
  ◌≡◌, ◌↔◌, refl, true, false, [], ◌∷◌, ◌++◌, none, some, Bytes, codes, arith, All, map, equal,
  find, find_from, starts_with, substr, substr_from, if◌then◌else◌,
}
use boost.Prelude.Streams.{lines, cons_line, unlines, ends_line}
use boost.Util.{FileSystem, read, append_lines}
use boost.Parser
use boost.Parser.{
  ok, parse_title, title_between, parse_url, parse_content, content_from, parse_file, collect,
  enum_file, write_output, process, main, exited, BoostFilesystem, Entry, g_input_path,
  g_output_path,
}
use boost.Parser.Title.{IsTitle, parse_title_iff}
use boost.Parser.Content.{text, tag, render, parse_content-render}
use boost.Parser.Pipeline.{record_line, parsed, pages, IsBelow, main_written}
use boost.Pipeline.{IsRecord, numbered, build-main, newline_title}
use boost.Index.{empty, build}
use boost.Tests.Samples.{split_any-IsSplit, sample_libraries, sample-VisitsAll}

-- What the tests run through.
parsing : Unit {0}
unfolding find find_from starts_with substr substr_from equal lines cons_line unlines ends_line read
    append_lines parse_title title_between parse_url parse_content content_from parse_file collect
    enum_file write_output process main
parsing = tt

abbrev page : Bytes
page = codes "<html><title>A b</title>\n<p>x > y</p></html>\n"

abbrev page_path : Bytes
page_path = codes "../data/input/html/a.html"

abbrev only_page : FileSystem
only_page = λ path. if equal path page_path then some page else none

-- The directory, a page that cannot be read, a page, and a picture.
abbrev sample_dir : BoostFilesystem
sample_dir = record {
  exists = λ path. true;
  walk = λ path.
      record { path = codes "../data/input/html"; is_regular_file = false }
      ∷ record { path = codes "../data/input/b.html"; is_regular_file = true }
      ∷ record { path = page_path; is_regular_file = true }
      ∷ record { path = codes "../data/input/c.png"; is_regular_file = true }
      ∷ [];
  extension =
      λ path. if equal path (codes "../data/input/c.png") then codes ".png" else codes ".html";
}

abbrev sample_doc : Parser.DocInfo
sample_doc = record {
  title = codes "A b";
  url = codes "https://www.boost.org/doc/libs/1_53_0/doc/html/a.html";
  content = codes "A b x > y ";
}

parsed_page : parse_file only_page page_path ≡ ok sample_doc
unfolding parsing
parsed_page = refl

main_page : main only_page sample_dir true ≡ exited 0 (record_line sample_doc ++ b'\n' ∷ [])
unfolding parsing
main_page = refl

main_missing : main only_page (record sample_dir { exists = λ path. false }) true ≡ exited 1 []
unfolding parsing
main_missing = refl

parse_title_iff_example : (parse_title page ≡ ok (codes "A b")) ↔ IsTitle page (codes "A b")
parse_title_iff_example = parse_title_iff page (codes "A b")

parse_content-render_example :
    parse_content (render (tag (codes "p") ∷ text (codes "x > y\n") ∷ [])) ≡ ok (codes "x > y ")
parse_content-render_example =
    parse_content-render (tag (codes "p") ∷ text (codes "x > y\n") ∷ []) (omega arith)

pages-IsBelow : All IsBelow (pages sample_dir g_input_path)
unfolding parsing
pages-IsBelow = ((codes "b.html", refl), ((codes "html/a.html", refl), tt))

main_written_example :
    main only_page sample_dir true
    ≡ exited 0 (unlines (map record_line (parsed only_page (pages sample_dir g_input_path))))
main_written_example = main_written only_page sample_dir refl pages-IsBelow

sample-IsRecord : All IsRecord (parsed only_page (pages sample_dir g_input_path))
unfolding parsing
sample-IsRecord = (record { title = omega arith; url = omega arith; content = omega arith }, tt)

abbrev written : FileSystem
written = λ path. some (record_line sample_doc ++ b'\n' ∷ [])

build-main_example :
    ((build sample_libraries written g_output_path empty).1 ≡ true)
    × ((build sample_libraries written g_output_path empty).0.forward_index
        ≡ numbered 0 (parsed only_page (pages sample_dir g_input_path)))
build-main_example =
    build-main sample_libraries only_page sample_dir written (record_line sample_doc ++ b'\n' ∷ [])
      sample-VisitsAll split_any-IsSplit refl pages-IsBelow sample-IsRecord main_page refl

-- A page with a newline in its title, between two pages with none.
abbrev two_line_page : Bytes
two_line_page = codes "<html><title>A\nb</title></html>"

abbrev two_line_path : Bytes
two_line_path = codes "../data/input/html/t.html"

abbrev two_pages : FileSystem
two_pages = λ path. if equal path two_line_path then some two_line_page else only_page path

abbrev two_page_dir : BoostFilesystem
two_page_dir = record sample_dir {
  walk = λ path.
      record { path = page_path; is_regular_file = true }
      ∷ record { path = two_line_path; is_regular_file = true }
      ∷ record { path = page_path; is_regular_file = true }
      ∷ [];
}

abbrev two_line_doc : Parser.DocInfo
two_line_doc = record {
  title = codes "A\nb";
  url = codes "https://www.boost.org/doc/libs/1_53_0/doc/html/t.html";
  content = codes "A b ";
}

two_line-parsed :
    parsed two_pages (pages two_page_dir g_input_path) ≡ sample_doc ∷ two_line_doc ∷ sample_doc ∷ []
unfolding parsing
two_line-parsed = refl

two_line-IsBelow : All IsBelow (pages two_page_dir g_input_path)
unfolding parsing
two_line-IsBelow =
    ((codes "html/a.html", refl), ((codes "html/t.html", refl), ((codes "html/a.html", refl), tt)))

abbrev two_line_output : Bytes
two_line_output =
    record_line sample_doc
    ++ (b'\n' ∷ (record_line two_line_doc ++ (b'\n' ∷ (record_line sample_doc ++ b'\n' ∷ []))))

two_line-main : main two_pages two_page_dir true ≡ exited 0 two_line_output
unfolding parsing
two_line-main = refl

sample_doc-IsRecord : IsRecord sample_doc
sample_doc-IsRecord = record { title = omega arith; url = omega arith; content = omega arith }

newline_title_example :
    ((build sample_libraries (λ path. some two_line_output) g_output_path empty).1 ≡ true)
    × ((build sample_libraries (λ path. some two_line_output) g_output_path empty).0.forward_index
        ≡ numbered 0 (sample_doc ∷ record two_line_doc { title = codes "b" } ∷ sample_doc ∷ []))
newline_title_example =
    newline_title sample_libraries two_pages two_page_dir (λ path. some two_line_output)
      two_line_output (sample_doc ∷ []) (sample_doc ∷ []) two_line_doc (codes "A") (codes "b")
      sample-VisitsAll split_any-IsSplit refl two_line-IsBelow two_line-parsed
      (sample_doc-IsRecord, tt) (sample_doc-IsRecord, tt) refl (omega arith)
      (record { title = omega arith; url = omega arith; content = omega arith }) two_line-main refl
