-- ===== src/Pagination/RoundTrip.antt =====
-- What this service writes as a `Link` header reads back as the same links.
use issues_api_testbed.Prelude.{
  ◌≡◌, refl, sym, ap, ◌∙◌, false, some, List, [], ◌∷◌, ◌++◌, append-nil, append_assoc, arith, Text,
  text, is_empty, nat_eq, text_eq,
}
use issues_api_testbed.Python.Str.{strip, is_space}
use issues_api_testbed.Errors.{ok, raise, crash, attribute_error}
use issues_api_testbed.Pagination.Defs.{
  match_segment, split_from, search_rel, quoted, has_rel, add_link, add_links, parse_link_header,
}
use issues_api_testbed.Pagination.Rewriting.{render_link, render_all, join}
use issues_api_testbed.Pagination.Segments.{
  All, inside, plain, IsLink, closing, quote, split_link, rstrip_last,
}

strip_ends : (s : Text) → strip (b'<' ∷ (s ++ b'"' ∷ [])) ≡ b'<' ∷ (s ++ b'"' ∷ [])
unfolding strip
strip_ends s = rstrip_last (b'<' ∷ s) b'"' refl

render_link_ends :
    (rel url : Text)
    → render_link (rel, url) ≡ b'<' ∷ ((url ++ (text ">; rel=\"" ++ rel)) ++ b'"' ∷ [])
unfolding render_link
render_link_ends rel url = simp append_assoc

strip-render_link : (l : Text × Text) → strip (render_link l) ≡ render_link l
strip-render_link (rel, url) = rw (render_link_ends rel url) (strip_ends _)

strip_blank : (l : Text × Text) → strip (b' ' ∷ render_link l) ≡ strip (render_link l)
unfolding strip render_link
strip_blank (rel, url) = refl

strip_blank-render_link : (l : Text × Text) → strip (b' ' ∷ render_link l) ≡ render_link l
strip_blank-render_link l = strip_blank l ∙ strip-render_link l

match_segment-render_link :
    (rel url : Text)
    → All inside url
    → match_segment (render_link (rel, url)) ≡ some (url, text "rel=\"" ++ (rel ++ b'"' ∷ []))
unfolding match_segment render_link text is_space
match_segment-render_link rel url h = rw (closing url h _, match_segment) refl

search_rel_quoted :
    (rel : Text)
    → All plain rel
    → search_rel (text "rel=\"" ++ (rel ++ b'"' ∷ [])) ≡ some (quoted rel)
unfolding search_rel text is_space
search_rel_quoted rel h = rw (quote rel h [], search_rel) refl

add_link-render_link :
    (links : List (Text × Text)) (l : Text × Text) (segment : Text)
    → IsLink l
    → has_rel l.0 links ≡ false
    → strip segment ≡ render_link l
    → add_link links segment ≡ ok (links ++ l ∷ [])
unfolding add_link
add_link-render_link links ([], url) segment h new e = absurd (cc (h.rel_not_empty))
add_link-render_link links (c ∷ rel, url) segment h new e =
    rw (e, match_segment-render_link (c ∷ rel) url h.url_inside, add_link)
      (rw (search_rel_quoted (c ∷ rel) h.rel_plain, add_link)
        (rw (h.rel_stripped, h.url_stripped, h.url_not_empty, new) refl))

-- No relation stands twice, in these links or in those in front of them.
abbrev pub RelsDistinct : List (Text × Text) → List (Text × Text) → Type 0
RelsDistinct before [] = Unit
RelsDistinct before (l ∷ links) =
    (has_rel l.0 before ≡ false) × RelsDistinct (before ++ l ∷ []) links

abbrev pub AllLinks : List (Text × Text) → Type 0
AllLinks [] = Unit
AllLinks (l ∷ links) = IsLink l × AllLinks links

link_not_empty : (lead : Text) (l : Text × Text) → is_empty (lead ++ render_link l) ≡ false
unfolding render_link
link_not_empty [] (rel, url) = refl
link_not_empty (c ∷ lead) l = refl

segments_one :
    (l : Text × Text) (lead : Text)
    → IsLink l
    → split_from 0 lead (render_link l) ≡ (lead ++ render_link l) ∷ []
unfolding split_from
segments_one l lead h =
    ap (split_from 0 lead) (sym (append-nil (render_link l)))
    ∙ split_link l lead [] h
    ∙ rw (link_not_empty lead l) refl

segments_more :
    (l : Text × Text) (lead s : Text)
    → IsLink l
    → split_from 0 lead (render_link l ++ (b',' ∷ b' ' ∷ s))
      ≡ (lead ++ render_link l) ∷ split_from 0 (b' ' ∷ []) s
unfolding split_from
segments_more l lead s h = split_link l lead (b',' ∷ b' ' ∷ s) h ∙ refl

-- the segments of a header, with what the separator leaves in front of each but the first
add_links-join :
    (before : List (Text × Text)) (l : Text × Text) (links : List (Text × Text)) (lead : Text)
    → IsLink l
    → AllLinks links
    → RelsDistinct before (l ∷ links)
    → strip (lead ++ render_link l) ≡ render_link l
    → add_links before (split_from 0 lead (join (render_all (l ∷ links))))
      ≡ ok (before ++ l ∷ links)
unfolding add_links join
add_links-join before l [] lead h hs d e =
    rw (segments_one l lead h)
      (rw (add_link-render_link before l (lead ++ render_link l) h d.0 e) refl)
add_links-join before l (m ∷ links) lead h hs d e =
    rw (segments_more l lead (join (render_all (m ∷ links))) h) (
      rw (add_link-render_link before l (lead ++ render_link l) h d.0 e) (
        add_links-join (before ++ l ∷ []) m links (b' ' ∷ []) hs.0 hs.1 d.1
          (strip_blank-render_link m)
        ∙ ap ok (append_assoc before (l ∷ []) (m ∷ links))))

not_blank_open : (s : Text) → is_empty (strip (b'<' ∷ s)) ≡ false
unfolding strip
not_blank_open s = ground arith

not_blank_join :
    (l : Text × Text) (links : List (Text × Text))
    → is_empty (strip (join (render_all (l ∷ links)))) ≡ false
unfolding join render_link
not_blank_join (rel, url) [] = not_blank_open _
not_blank_join (rel, url) (m ∷ links) = not_blank_open _

-- A header written for links whose parts can stand in one reads back as those links, in order.
pub parse_link_header-join :
    (l : Text × Text) (links : List (Text × Text))
    → AllLinks (l ∷ links)
    → RelsDistinct [] (l ∷ links)
    → parse_link_header (some (join (render_all (l ∷ links)))) ≡ ok (l ∷ links)
unfolding parse_link_header
parse_link_header-join l links h d =
    rw (not_blank_join l links) (add_links-join [] l links [] h.0 h.1 d (strip-render_link l))

-- A link with an empty quoted relation raises `AttributeError`, whatever links stand in front of it.
empty_rel_raises :
    (links : List (Text × Text)) (url : Text)
    → All inside url
    → add_link links (render_link ([], url)) ≡ raise (crash attribute_error)
unfolding add_link
empty_rel_raises links url h =
    rw (strip-render_link ([], url), match_segment-render_link [] url h, add_link)
      (rw (search_rel_quoted [] tt, add_link) refl)
