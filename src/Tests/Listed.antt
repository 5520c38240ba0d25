-- ===== src/Tests/Listed.antt =====
-- `GET /issues` on a cached page, and a GitHub that honours its validator.
use issues_api_testbed.Prelude.{
  ◌≡◌, refl, ◌⊎◌, inr, ap, subst, true, Option, none, some, [], ◌∷◌, Text, text, text_beq, pair_eq,
  text_eq, nat_eq, ◌==◌, if◌then◌else◌,
}
use mathlib.Core.Option.{get_or}
use issues_api_testbed.Prelude.Int.{pos}
use issues_api_testbed.Python
use issues_api_testbed.Python.{
  Json, str, num, obj, arr, cons, nil, field, end, truthy, lookup, as_dict,
}
use issues_api_testbed.Errors.{ok, set_header}
use issues_api_testbed.Http.{Response, Body}
use issues_api_testbed.Python.Str.{decimal}
use issues_api_testbed.Pagination.{rewrite_link_header, parse_link_header}
use issues_api_testbed.Routes.Issues.Pages.{IsPage, list_issues-IsPage}
use issues_api_testbed.Schemas.{only, opened, Issue, is_pull_request, to_issue, label_names, login}
use issues_api_testbed.Cache.{CachedList, find, get}
use issues_api_testbed.Github
use issues_api_testbed.Github.{
  Floats, Truncated, whole, Reply, Outcome, replied, Repository, Upstream, GitHubResult, Call,
  request, decode, client_headers, list_call,
}
use issues_api_testbed.Routes.Issues.{
  Services, ListQuery, Cache, cache_key, entry_of, list_issues, list_of, look_up, nonempty, current,
  list_params, wanted_etag, issues_of, page_response,
}
use issues_api_testbed.Routes.Issues.Caching.{
  shown, upstream, without_cache, IsCurrent, cache_is_transparent,
}

abbrev pub whole_seconds : Floats
whole_seconds = record {
  Float = Truncated;
  parse = λ s. some (whole (pos 30));
  minus = λ a b. a;
  truncate = λ a. a;
}

abbrev pub tag : Text
tag = b'v' ∷ []

-- an issue, and a pull request
abbrev pub seven : Json
seven = obj (
    field (text "number") (num 7) (
      field (text "created_at") (str (text "2024"))
        (field (text "updated_at") (str (text "2024")) end)))

abbrev pub pull : Json
pull = obj (field (text "number") (num 8) (field (text "pull_request") (obj end) end))

abbrev pub full : Reply
full = record {
  status_code = 200;
  header = λ name. if name == text "etag" then some tag else none;
  content = b'[' ∷ b']' ∷ [];
  json = some (arr (cons seven (cons pull nil)));
  reason_phrase = text "OK";
}

abbrev pub unchanged : Reply
unchanged = record full { status_code = 304; content = []; json = none }

-- GitHub answers every validator with `304`, and any other request with one page
abbrev pub github : Upstream whole_seconds
github = record {
  send = λ (c : Call). elim (find (text "If-None-Match") c.headers) [
    | none ↦ replied full
    | some e ↦ replied unchanged
  ];
  time = whole (pos 0);
}

abbrev pub services : Services
services = record {
  floats = whole_seconds;
  repo = record {
    github_owner = text "o";
    github_repo = text "r";
    github_token = text "t";
    github_api_version = text "v";
  };
  up = github;
  pydantic = record {
    read_int = λ j. some (pos 7);
    read_str = λ j. some (text "title");
    read_datetime = λ j. some (text "2024");
  };
  urls = record { query = λ u. some []; urlencode = λ q. [] };
  cache_enabled = true;
}

abbrev pub first_page : ListQuery
first_page = record {
  state = only opened;
  labels = none;
  page = 1;
  per_page = 30;
  if_none_match = none;
}

abbrev pub page_seven : CachedList
page_seven = record { etag = tag; entries = seven ∷ pull ∷ []; link = none }

abbrev pub warm : Cache
warm = record {
  max_entries = 8;
  entries = (cache_key first_page, page_seven) ∷ [];
  hits = 0;
  misses = 0;
}

sent_tag :
    upstream services first_page (some tag)
    ≡ ok (record { status_code = 304; payload = decode unchanged; header = unchanged.header })
unfolding Github.list_issues request list_call client_headers find set_header text text_beq decode
sent_tag = refl

sent_bare :
    upstream services first_page none
    ≡ ok (record { status_code = 200; payload = decode full; header = full.header })
unfolding Github.list_issues request list_call client_headers find set_header text text_beq decode
sent_bare = refl

cached : find (cache_key first_page) warm.entries ≡ some page_seven
unfolding find text text_beq
cached = refl

pub kept :
    entry_of (record { status_code = 200; payload = decode full; header = full.header })
    ≡ ok page_seven
unfolding entry_of decode list_of truthy text text_beq
kept = refl

page-IsCurrent : IsCurrent services first_page page_seven
page-IsCurrent = inr (
  record { status_code = 304; payload = decode unchanged; header = unchanged.header },
  sent_tag,
  refl,
  record { status_code = 200; payload = decode full; header = full.header },
  sent_bare,
  kept,
)

entry-IsCurrent :
    (entry : CachedList)
    → find (cache_key first_page) warm.entries ≡ some entry
    → IsCurrent services first_page entry
unfolding find text text_beq
entry-IsCurrent entry h =
    subst (IsCurrent services first_page) (ap (λ (o : Option CachedList). get_or o page_seven) h)
      page-IsCurrent

cache_is_transparent_example :
    shown (list_issues services first_page warm).0
    ≡ shown (list_issues (without_cache services) first_page warm).0
cache_is_transparent_example =
    cache_is_transparent services first_page warm refl refl entry-IsCurrent

abbrev issue_seven : Issue
issue_seven = record {
  number = pos 7;
  title = text "title";
  body = none;
  state = text "title";
  labels = [];
  html_url = text "title";
  user = none;
  comments = pos 7;
  created_at = text "2024";
  updated_at = text "2024";
  closed_at = none;
}

-- the cached page, without the pull request
abbrev page_one : Response
page_one = record {
  status = 200;
  headers =
      (text "X-Cache", text "HIT")
      ∷ (text "ETag", tag)
      ∷ (text "X-Page", text "1")
      ∷ (text "X-Per-Page", text "30")
      ∷ [];
  body = Body.issues (issue_seven ∷ []);
}

answered_page : (list_issues services first_page warm).0 ≡ ok page_one
unfolding list_issues page_response issues_of Github.list_issues request list_call client_headers
    find set_header text text_beq decode rewrite_link_header is_pull_request to_issue decimal
    wanted_etag get parse_link_header lookup label_names truthy Python.get login as_dict
answered_page = refl

list_issues-IsPage_example :
    ((e : Text) × (nonempty first_page.if_none_match ≡ some e) × (page_one ≡ current services e))
    ⊎ ((entry : CachedList) × ((look_up services first_page warm).0 ≡ some entry)
        × IsPage services first_page (text "HIT") entry page_one)
    ⊎ ((r : GitHubResult) × (entry : CachedList) × (Github.list_issues services.repo whole_seconds
            github
            (list_params first_page)
            (wanted_etag first_page.if_none_match (look_up services first_page warm).0)
          ≡ ok r)
        × (entry_of r ≡ ok entry)
        × IsPage services first_page (text "MISS") entry page_one)
list_issues-IsPage_example = list_issues-IsPage services first_page warm page_one answered_page
