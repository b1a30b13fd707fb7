-- ===== src/Tests/Serving.antt =====
-- The server's handler on a small index.
use mathlib.Core.List.{Permᴰ}
use boost.Prelude.{◌≡◌, refl, true, List, [], some, codes}
use boost.Index.{Weight, Index, empty, build, cut_word}
use boost.Searcher.{IsRanked, init}
use boost.Searcher.Search.{hits, Result, Matches, answer}
use boost.Server.{Request, Response, application_json, raw_input, listening, main, handle}
use boost.Server.Handler.{handle_answered}
use boost.Tests.Samples.{
  sort, sort-IsSort, sample_libraries, sample-VisitsAll, sample_json, sample_files,
}

abbrev served : Index
served = (init sample_libraries sample_files raw_input empty).0

started : main sample_libraries sample_files ≡ listening served
unfolding main init build
started = refl

abbrev ask : Request
ask = record { has_param = λ key. true; get_param_value = λ key. codes "heap" }

abbrev blank_response : Response
blank_response = record { body = []; content_type = [] }

handle_answered_example :
    (ws : List Weight) × (rs : List Result) × Permᴰ
      (hits sample_libraries served.forward_index (cut_word sample_libraries (codes "heap")))
      ws
    × IsRanked ws
    × Matches served ws rs
    × (handle sample_json sample_libraries sort served ask blank_response
        ≡ some (record {
          body = sample_json.write (answer sample_json rs sample_json.null);
          content_type = application_json;
        }))
handle_answered_example =
    handle_answered sample_json sample_libraries sort sort-IsSort sample_files served
      sample-VisitsAll started ask blank_response refl
