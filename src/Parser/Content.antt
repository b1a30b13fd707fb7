-- ===== src/Parser/Content.antt =====
-- `ParseContent`: what is left of the text between tags, and what the index file relies on.
use boost.Prelude.{
  ◌≡◌, ◌≢◌, refl, sym, ap, ◌∙◌, Bool, true, false, List, [], ◌∷◌, ◌++◌, ℕ, ◌==◌, if◌then◌else◌, All,
  All-append, Bytes, map, arith, append-nil, append_assoc,
}
use boost.Parser.{ok, content_from, parse_content}

-- A newline becomes a space.
abbrev pub blank : ℕ → ℕ
blank c = if c == b'\n' then b' ' else c

-- A page as its author reads it: runs of text, and tags.
pub data Piece : Type 0 where
  text : Bytes → Piece
  tag : Bytes → Piece

-- The source of a page.
abbrev pub render : List Piece → Bytes
render [] = []
render (text t ∷ page) = t ++ render page
render (tag t ∷ page) = b'<' ∷ (t ++ b'>' ∷ render page)

-- Its text alone, on one line.
abbrev pub plain : List Piece → Bytes
plain [] = []
plain (text t ∷ page) = map blank t ++ plain page
plain (tag t ∷ page) = plain page

-- No text holds the start of a tag, and no tag the end of one.
abbrev pub IsPage : List Piece → Type 0
IsPage [] = Unit
IsPage (text t ∷ page) = All (λ c. c ≢ b'<') t × IsPage page
IsPage (tag t ∷ page) = All (λ c. c ≢ b'>') t × IsPage page

content_from-text :
    (t content rest : Bytes)
    → All (λ c. c ≢ b'<') t
    → content_from true content (t ++ rest) ≡ content_from true (content ++ map blank t) rest
unfolding content_from
content_from-text [] content rest h = rw append-nil
content_from-text (c ∷ t) content rest (p, h) = ground (
  arith,
  content_from-text t (content ++ blank c ∷ []) rest h,
  append_assoc content (blank c ∷ []) (map blank t),
)

content_from-tag :
    (t content rest : Bytes)
    → All (λ c. c ≢ b'>') t
    → content_from false content (t ++ b'>' ∷ rest) ≡ content_from true content rest
unfolding content_from
content_from-tag [] content rest h = refl
content_from-tag (c ∷ t) content rest (p, h) = ground (arith, content_from-tag t content rest h)

content_from-render :
    (page : List Piece) (content : Bytes)
    → IsPage page
    → content_from true content (render page) ≡ content ++ plain page
unfolding content_from
content_from-render [] content h = sym (append-nil content)
content_from-render (text t ∷ page) content (p, h) =
    content_from-text t content (render page) p
    ∙ content_from-render page (content ++ map blank t) h
    ∙ append_assoc content (map blank t) (plain page)
content_from-render (tag t ∷ page) content (p, h) =
    content_from-tag t content (render page) p ∙ content_from-render page content h

-- On a page that is made of texts with no start of a tag and of tags with no end of one inside,
-- ParseContent drops the tags and keeps the text, with a space for each newline.
pub parse_content-render :
    (page : List Piece) → IsPage page → parse_content (render page) ≡ ok (plain page)
unfolding parse_content
parse_content-render page h = ap ok (content_from-render page [] h)

-- A byte of the content: no newline, and no start of a tag.
abbrev pub IsPlain : ℕ → Type 0
IsPlain c = (c ≢ b'\n') × (c ≢ b'<')

content_from-IsPlain :
    (is_content : Bool) (content html : Bytes)
    → All IsPlain content
    → All IsPlain (content_from is_content content html)
unfolding content_from
content_from-IsPlain is_content content [] h = h
content_from-IsPlain true content (c ∷ html) h = ground (
  arith,
  content_from-IsPlain true (content ++ blank c ∷ []) html,
  content_from-IsPlain false content html h,
  All-append IsPlain content (blank c ∷ []) h,
)
content_from-IsPlain false content (c ∷ html) h = content_from-IsPlain (c == b'>') content html h

-- Whatever the page, its content as ParseContent gives it holds no newline and no start of a tag.
pub parse_content-IsPlain :
    (html content : Bytes) → parse_content html ≡ ok content → All IsPlain content
unfolding parse_content
parse_content-IsPlain html content e = subst_ok e
  where
    subst_ok : ok (content_from true [] html) ≡ ok content → All IsPlain content
    subst_ok same =
        let inner : content_from true [] html ≡ content = cc in
        rw (← inner) (content_from-IsPlain true [] html tt)
