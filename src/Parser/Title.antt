-- ===== src/Parser/Title.antt =====
-- `ParseTitle` against the shape of the text that it accepts.
use mathlib.Core.Option
use boost.Prelude.{
  ◌+◌, ◌-◌, ◌≤◌, ◌≡◌, ◌≢◌, ◌↔◌, refl, sym, ap, ◌∙◌, false, [], ◌∷◌, ◌++◌, Option, none, some, ℕ,
  ◌==◌, ltb, if◌then◌else◌, length, take, drop, Bytes, find, find_from, substr, length-append,
  drop-append_length, take-append_length, drop-drop, arith, Option-cases, inl, inr,
}
use boost.Prelude.Find.{find-Hit, find-le, find-append, find-le_length}
use boost.Parser.{Result, ok, failed, out_of_range, open_tag, close_tag, title_between, parse_title}

-- No closing tag begins inside an opening tag.
find-open_tag :
    (rest : Bytes)
    → find close_tag (open_tag ++ rest) ≡ Option.map (λ j. 7 + j) (find close_tag rest)
unfolding find
find-open_tag rest = elim (Option-cases (find close_tag rest)) [
  | inl missed ↦ rw missed
  | inr (j, found) ↦ rw found (ap some (omega arith))
]

-- The value of `ParseTitle` where the text behind the first opening tag is `rest`, and the closing
-- tag is found in it.
abbrev title_of : Bytes → Option ℕ → Result Bytes
title_of rest none = failed
title_of rest (some j) = if j == 0 then failed else ok (take j rest)

module _ (before rest : Bytes) where
  abbrev page : Bytes
  page = before ++ (open_tag ++ rest)

  find_from-close_tag :
      find_from close_tag (length before) page
      ≡ Option.map (λ j. length before + (7 + j)) (find close_tag rest)
  unfolding find_from
  find_from-close_tag =
      let inside : ltb (length page) (length before) ≡ false =
        ground (arith, length-append before (open_tag ++ rest)) in
      rw (inside, drop-append_length before (open_tag ++ rest), find-open_tag rest)
        (elim (Option-cases (find close_tag rest)) [
          | inl missed ↦ rw missed
          | inr (j, found) ↦ rw found
        ])

  title_between_lem :
      (j : ℕ)
      → j ≤ length rest
      → title_between page (length before) (length before + (7 + j)) ≡ title_of rest (some j)
  unfolding title_between substr
  title_between_lem j h =
      let size = length-append before (open_tag ++ rest) in
      let tail : drop (length before + 7) page ≡ rest =
        sym (drop-drop 7 (length before) page)
        ∙ ap (drop 7) (drop-append_length before (open_tag ++ rest)) in
      let inside : ltb (length page) (length before + 7) ≡ false = ground arith in
      let width : length before + (7 + j) - (length before + 7) ≡ j = omega arith in
      rw (tail, inside, width) (ground arith)

  parse_title-cases :
      find open_tag page ≡ some (length before)
      → parse_title page ≡ title_of rest (find close_tag rest)
  unfolding parse_title
  parse_title-cases found =
      rw (found, parse_title, find_from-close_tag)
        (elim (Option-cases (find close_tag rest)) [
          | inl missed ↦ rw missed
          | inr (j, hit) ↦ rw hit (title_between_lem j (find-le_length close_tag rest hit))
        ])

-- `html` holds the title `t`: it stands between the first opening tag and the next closing one,
-- and is not empty.
pub record IsTitle (html t : Bytes) : Type 0 where
  pub before : Bytes
  pub behind : Bytes
  pub splits : html ≡ before ++ (open_tag ++ (t ++ (close_tag ++ behind)))
  pub nonempty : t ≢ []
  pub opens_first : (a b : Bytes) → html ≡ a ++ (open_tag ++ b) → length before ≤ length a
  pub closes_first :
      (a b : Bytes) → t ++ (close_tag ++ behind) ≡ a ++ (close_tag ++ b) → length t ≤ length a

title_of-ne_ok : (rest t : Bytes) (j : ℕ) → title_of rest (some j) ≡ ok t → j ≢ 0
title_of-ne_ok rest t j e zero_j = ground arith

-- A title that is returned.
title_of-IsTitle :
    (html before rest t : Bytes)
    → html ≡ before ++ (open_tag ++ rest)
    → find open_tag html ≡ some (length before)
    → title_of rest (find close_tag rest) ≡ ok t
    → IsTitle html t
title_of-IsTitle html before rest t splits opened e = elim (Option-cases (find close_tag rest)) [
  | inl missed ↦ absurd (cc)
  | inr (j, found) ↦
      let hit = find-Hit close_tag rest found in
      let front : take j rest ≡ hit.before =
        ap (take j) hit.splits ∙ rw (← hit.place) (take-append_length hit.before _) in
      let e' : title_of rest (some j) ≡ ok t = rw found at e in
      let title : hit.before ≡ t = ground arith in
      let size : length t ≡ j = ap length (sym title) ∙ hit.place in
      record {
        before = before;
        behind = hit.behind;
        splits = rw (← title) (splits ∙ ap (λ r. before ++ (open_tag ++ r)) hit.splits);
        nonempty = λ empty. title_of-ne_ok rest t j e' (sym size ∙ ap length empty);
        opens_first = λ a b same. find-le open_tag html a b opened same;
        closes_first = λ a b same.
            let cut = hit.splits ∙ rw title same in rw size (find-le close_tag rest a b found cut);
      }
]

parse_title_sound : (html t : Bytes) → parse_title html ≡ ok t → IsTitle html t
parse_title_sound html t e = elim (Option-cases (find open_tag html)) [
  | inl missed ↦ absurd (parse_title-ne_ok html t missed e)
  | inr (i, opened) ↦
      let hit = find-Hit open_tag html opened in
      let here = opened ∙ ap some (sym hit.place) in
      let cases =
        parse_title-cases hit.before hit.behind (ap (find open_tag) (sym hit.splits) ∙ here) in
      title_of-IsTitle html hit.before hit.behind t hit.splits here
        (sym cases ∙ ap parse_title (sym hit.splits) ∙ e)
]
  where
    parse_title-ne_ok : (html t : Bytes) → find open_tag html ≡ none → parse_title html ≢ ok t
    parse_title-ne_ok html t missed e = unfold parse_title in ground arith

title_of_whole : (t behind : Bytes) → t ≢ [] → title_of (t ++ behind) (some (length t)) ≡ ok t
title_of_whole [] behind h = absurd (h refl)
title_of_whole (c ∷ t) behind h = ground (arith, take-append_length t behind)

parse_title_complete : (html t : Bytes) → IsTitle html t → parse_title html ≡ ok t
parse_title_complete html t h =
    let rest = t ++ (close_tag ++ h.behind) in
    let opened =
      find-append open_tag h.before rest (λ a b same. h.opens_first a b (h.splits ∙ same)) in
    let closed = find-append close_tag t h.behind h.closes_first in
    ap parse_title h.splits
    ∙ parse_title-cases h.before rest opened
    ∙ ap (title_of rest) closed
    ∙ title_of_whole t (close_tag ++ h.behind) h.nonempty

-- ParseTitle returns true exactly with the text between the first opening tag of the page and the
-- closing tag that comes next, where there are both and the text is not empty.
pub parse_title_iff : (html t : Bytes) → (parse_title html ≡ ok t) ↔ IsTitle html t
parse_title_iff html t = (parse_title_sound html t, parse_title_complete html t)

-- ParseTitle never throws, whatever the page.
pub parse_title-ne-out_of_range : (html : Bytes) → parse_title html ≢ out_of_range
unfolding parse_title
parse_title-ne-out_of_range html e = elim (Option-cases (find open_tag html)) [
  | inl missed ↦ ground arith
  | inr (i, opened) ↦
      let hit = find-Hit open_tag html opened in
      let here = ap (find open_tag) (sym hit.splits) ∙ opened ∙ ap some (sym hit.place) in
      title_of-ne-out_of_range hit.behind (find close_tag hit.behind)
        (sym (parse_title-cases hit.before hit.behind here) ∙ ap parse_title (sym hit.splits) ∙ e)
]
  where
    title_of-ne-out_of_range : (rest : Bytes) (o : Option ℕ) → title_of rest o ≢ out_of_range
    title_of-ne-out_of_range rest o same = ground arith
