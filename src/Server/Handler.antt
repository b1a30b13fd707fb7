-- ===== src/Server/Handler.antt =====
-- The handler answers every request, on both of its branches.
use mathlib.Core.List.{Permᴰ}
use boost.Prelude.{
  ◌≡◌, ◌↔◌, subst, true, false, not, List, none, some, if◌then◌else◌, Bytes, Bool, codes, inl, inr,
  Option-cases,
}
use boost.Util.{FileSystem}
use boost.Index.{Weight, Index, Libraries, VisitsAll, empty, cut_word, build}
use boost.Index.Build.{IsConsistent, empty-IsConsistent, build-IsConsistent, build_closed}
use boost.Searcher.{Json, IsRanked, IsSort, init}
use boost.Searcher.Search.{hits, Result, Matches, answer, search_lem}
use boost.Server.{
  Request, Response, bad_parameter, text_plain, application_json, raw_input, exited, listening,
  main, handle,
}

build_flag :
    (lib : Libraries) (fs : FileSystem) (path : Bytes) (index : Index) {text : Bytes}
    → fs path ≡ some text
    → (build lib fs path index).1 ≡ true
unfolding build
build_flag lib fs path index opened = rw (opened, build)

-- The server's main returns 1 exactly where the index file does not open.
pub main-exited_iff :
    (lib : Libraries) (fs : FileSystem) → (main lib fs ≡ exited 1) ↔ (fs raw_input ≡ none)
unfolding main init
main-exited_iff lib fs = elim (Option-cases (fs raw_input)) [
  | inl closed ↦ (λ _. closed, λ _. rw (build_closed lib fs raw_input empty closed))
  | inr (text, opened) ↦
      (λ e. absurd (cc (rw (build_flag lib fs raw_input empty opened) at e)), λ closed. absurd (cc))
]

-- The index of a server that listens is consistent, if the visit of a map visits each entry once.
pub main-IsConsistent :
    (lib : Libraries) (fs : FileSystem) (index : Index)
    → VisitsAll lib
    → main lib fs ≡ listening index
    → IsConsistent lib index
unfolding main init
main-IsConsistent lib fs index visits started =
    let h = build-IsConsistent lib visits fs raw_input empty (empty-IsConsistent lib visits) in
    from_flag (build lib fs raw_input empty) h started
  where
    from_flag :
        (r : Index × Bool)
        → IsConsistent lib r.0
        → (if not r.1 then exited 1 else listening r.0) ≡ listening index
        → IsConsistent lib index
    from_flag (old, true) h e = let same : old ≡ index = cc in subst (IsConsistent lib) same h
    from_flag (old, false) h e = absurd (cc)

module _ {Value : Type 0} (json : Json Value) (lib : Libraries) (sort : List Weight → List Weight)
    (sorts : IsSort sort) (fs : FileSystem) (index : Index) (visits : VisitsAll lib)
    (started : main lib fs ≡ listening index) (req : Request) (resp : Response) where
  -- When the server listens, a request without the parameter query is answered with the message
  -- about a wrong parameter, as plain text.
  pub handle_refused :
      req.has_param (codes "query") ≡ false
      → handle json lib sort index req resp
        ≡ some (record { body = bad_parameter; content_type = text_plain })
  unfolding handle
  handle_refused absent = rw (absent, handle)

  -- When main has built its index from the file and listens, a request that has the parameter query
  -- is answered as JSON, with one result for each posting of each token of the parameter's value,
  -- heaviest first. The sort is assumed to permute and rank, and the visit of a map to visit each
  -- entry once.
  pub handle_answered :
      req.has_param (codes "query") ≡ true
      → (ws : List Weight) × (rs : List Result) × Permᴰ
          (hits lib index.forward_index (cut_word lib (req.get_param_value (codes "query"))))
          ws
        × IsRanked ws
        × Matches index ws rs
        × (handle json lib sort index req resp
            ≡ some (record {
              body = json.write (answer json rs json.null);
              content_type = application_json;
            }))
  unfolding handle
  handle_answered present =
      let query = req.get_param_value (codes "query") in
      let consistent = main-IsConsistent lib fs index visits started in
      let (ws, rs, perm, ranked, same, e) = search_lem json lib sort sorts index query consistent in
      (ws, rs, perm, ranked, same, rw (present, handle, e))
