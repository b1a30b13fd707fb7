-- ===== src/Tests/Searching.antt =====
-- The index, the search and the handler on a small file.
use mathlib.Core.List.{Permᴰ}
use boost.Prelude.{◌≡◌, ◌≤◌, refl, true, List, ◌++◌, some, Bytes, codes, length, arith}
use boost.Prelude.Int.{pos}
use boost.Prelude.Streams.{lines}
use boost.Index.{Index, DocInfo, Weight, empty, build, get_doc_info, get_inverted_list, cut_word}
use boost.Index.Postings.{postings, listed}
use boost.Index.Build.{
  IsConsistent, empty-IsConsistent, build-IsConsistent, build_opened, documents,
}
use boost.Searcher.{
  generate_desc, dotted, gather, make_result, append_results, init, search, IsRanked,
}
use boost.Prelude.{equal, find, starts_with, substr, substr_from}
use boost.Prelude.Dict.{lookup, modify}
use boost.Prelude.Streams.{cons_line}
use boost.Util.{split}
use boost.Index.{
  build_lines, build_line, build_forward, build_inverted, insert_weights, word_counts, count_words,
  add_doc,
}
use boost.Searcher.Excerpt.{generate_desc_total, generate_desc-shows}
use boost.Searcher.Search.{hits, Result, Matches, answer, search_lem, search-init}
use boost.Tests.Samples.{
  split_any, one_of, insert, sort, lower, sort-IsSort, sample_libraries, sample-VisitsAll,
  sample_json, sample_file, sample_files,
}

-- What the tests run through.
searching : Unit {0}
unfolding search init append_results gather cut_word split_any get_inverted_list lookup build
    build_lines lines build_line build_forward split build_inverted insert_weights word_counts
    count_words add_doc get_doc_info modify cons_line equal find starts_with substr substr_from
    dotted generate_desc make_result sort insert one_of lower
searching = tt

abbrev sample_index : Index
sample_index = (init sample_libraries sample_files (codes "x") empty).0

-- Both documents hold "heap": the second, whose title has it, stands first.
search_heap :
    search sample_json sample_libraries sort sample_index (codes "HEAP")
    ≡ some (
        codes
          "null,nulltitle:Heapurl:u/heapdesc:a heap,nulltitle:Asiourl:u/asiodesc:asio and heap\n")
unfolding searching
search_heap = refl

build-IsConsistent_example :
    IsConsistent sample_libraries (build sample_libraries sample_files (codes "x") empty).0
build-IsConsistent_example =
    build-IsConsistent sample_libraries sample-VisitsAll sample_files (codes "x") empty
      (empty-IsConsistent sample_libraries sample-VisitsAll)

build_opened_example :
    ((build sample_libraries sample_files (codes "x") empty).1 ≡ true)
    × ((build sample_libraries sample_files (codes "x") empty).0.forward_index
        ≡ documents sample_libraries 0 (lines sample_file))
    × ((word : Bytes)
        → get_inverted_list (build sample_libraries sample_files (codes "x") empty).0 word
          ≡ listed
              (postings sample_libraries word (documents sample_libraries 0 (lines sample_file))))
build_opened_example =
    build_opened sample_libraries sample-VisitsAll sample_files (codes "x") {text = sample_file}
      refl

abbrev heap_doc : DocInfo
heap_doc = record {
  doc_id = pos 1;
  title = codes "Heap";
  url = codes "u/heap";
  content = codes "a heap";
}

search-init_example :
    (ws : List Weight) × (rs : List Result) × Permᴰ
      (hits sample_libraries
        (documents sample_libraries 0 (lines sample_file))
        (cut_word sample_libraries (codes "HEAP")))
      ws
    × IsRanked ws
    × Matches sample_index ws rs
    × (search sample_json sample_libraries sort sample_index (codes "HEAP")
        ≡ some (sample_json.write (answer sample_json rs sample_json.null)))
search-init_example =
    search-init sample_json sample_libraries sort sort-IsSort sample_files (codes "x")
      (codes "HEAP") {text = sample_file} sample-VisitsAll refl

search_lem_example :
    (ws : List Weight) × (rs : List Result) × Permᴰ
      (hits sample_libraries sample_index.forward_index (cut_word sample_libraries (codes "a")))
      ws
    × IsRanked ws
    × Matches sample_index ws rs
    × (search sample_json sample_libraries sort sample_index (codes "a")
        ≡ some (sample_json.write (answer sample_json rs sample_json.null)))
search_lem_example =
    search_lem sample_json sample_libraries sort sort-IsSort sample_index (codes "a")
      (unfold init in build-IsConsistent_example)

generate_desc_total_example :
    (desc : Bytes) × (generate_desc (codes "a heap") (codes "heap") ≡ some desc)
    × (length desc ≤ 160)
generate_desc_total_example = generate_desc_total (codes "a heap") (codes "heap")

generate_desc-shows_example :
    (a b : Bytes) × (generate_desc (codes "a heap") (codes "heap")
      ≡ some (a ++ (codes "heap" ++ b)))
    × (length a ≤ 60)
generate_desc-shows_example =
    generate_desc-shows (codes "a heap") (codes "heap") {i = 2} (unfold searching in refl)
      (omega arith)
