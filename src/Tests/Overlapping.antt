-- ===== src/Tests/Overlapping.antt =====
-- Two calls of `list_issues` that overlap on an empty cache.
use issues_api_testbed.Prelude.{◌≡◌, refl, sym, subst, arith, none, [], ◌∷◌, text, text_beq}
use issues_api_testbed.Errors.{ok, set_header}
use issues_api_testbed.Http.{Response, issues}
use issues_api_testbed.Cache.{find, get}
use issues_api_testbed.Pagination.{rewrite_link_header, parse_link_header, retarget}
use issues_api_testbed.Python.Str.{decimal}
use issues_api_testbed.Github.{GitHubResult}
use issues_api_testbed.Routes.Issues.{
  answered, look_up, page_response, issues_of, list_of, entry_of,
}
use issues_api_testbed.Routes.Issues.Interleaved.{
  Pending, Server, Takes, first, begin, finish, begins, finishes, Reach, here, next,
}
use issues_api_testbed.Routes.Issues.Provenance.{
  IsSound, IsTraced, Reach-IsSound, response-IsTraced,
}
use issues_api_testbed.Python.{arr, nil, truthy}
use issues_api_testbed.Tests.Listed.{services, tag, full, first_page}

abbrev cold : Server
cold = record {
  cache = record { max_entries = 8; entries = []; hits = 0; misses = 0 };
  pending = [];
  log = [];
}

cold-IsSound : IsSound cold
cold-IsSound = record {
  valid = record { positive = omega arith; bounded = omega arith; distinct = tt };
  entries = tt;
  pending = tt;
}

-- a page with no issues
abbrev sent : GitHubResult
sent = record { status_code = 200; payload = arr nil; header = full.header }

-- the second call begins before the first has its answer
abbrev both : Server
both = begin services first_page (begin services first_page cold)

abbrev waiting : Pending
waiting = record { query = first_page; cached = none }

both-Reach : Reach services cold both
both-Reach = next (next here (begins first_page)) (begins first_page)

both_pending : both.pending ≡ waiting ∷ waiting ∷ []
unfolding begin look_up get find
both_pending = refl

-- the first call has its page; the second still waits, with no page of its own
abbrev half : Server
half = finish services waiting (waiting ∷ []) sent both

half-Reach : Reach services cold half
half-Reach = next both-Reach (
    finishes waiting (waiting ∷ []) sent
      (subst (λ ps. Takes waiting ps (waiting ∷ [])) (sym both_pending) first))

half_pending : half.pending ≡ waiting ∷ []
unfolding finish
half_pending = refl

abbrev page : Response
page = record {
  status = 200;
  headers =
      (text "X-Cache", text "MISS")
      ∷ (text "ETag", tag)
      ∷ (text "X-Page", text "1")
      ∷ (text "X-Per-Page", text "30")
      ∷ [];
  body = issues [];
}

answered_page : (answered services first_page none (ok sent) half.cache).0 ≡ ok page
unfolding answered entry_of list_of truthy page_response rewrite_link_header parse_link_header
    retarget issues_of decimal set_header text text_beq
answered_page = refl

response-IsTraced_example : IsTraced services half.log waiting sent page
response-IsTraced_example =
    response-IsTraced services sent page cold-IsSound half-Reach
      (subst (λ ps. Takes waiting ps []) (sym half_pending) first) answered_page

Reach-IsSound_example : IsSound both
Reach-IsSound_example = Reach-IsSound services both-Reach cold-IsSound
