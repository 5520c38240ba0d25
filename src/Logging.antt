-- ===== src/Logging.antt =====
-- app/logging.py: the middleware that gives a request its id. What is logged is in the child modules.
pub mod Lines
pub mod Carried
use issues_api_testbed.Prelude.{
  ◌≡◌, ◌≢◌, refl, arith, Option, none, some, [], ◌∷◌, Text, text, is_empty, if◌then◌else◌, text_eq,
  ==_refl, ==_of_ne, eq_of_==,
}
use issues_api_testbed.Errors.{Result, ok, Headers, set_header, ◌>>=◌}
use issues_api_testbed.Http.{Request, Response}
use issues_api_testbed.Cache.{find}

abbrev pub request_id_header : Text
request_id_header = text "X-Request-ID"

-- `request.headers.get(REQUEST_ID_HEADER) or str(uuid.uuid4())`
abbrev pub chosen_id : Option Text → Text → Text
chosen_id none fresh = fresh
chosen_id (some id) fresh = if is_empty id then fresh else id

-- `request_context_middleware`, with the text of a fresh UUID
unfoldable pub request_context_middleware :
    Request → Text → (Request → Result Response) → Result Response
request_context_middleware request fresh call_next =
    let id = chosen_id (request.header request_id_header) fresh in
    do
      response ← call_next (record request { request_id = some id })
      ok (record response { headers = set_header request_id_header id response.headers })

pub find-set_header :
    (name value : Text) (headers : Headers) → find name (set_header name value headers) ≡ some value
unfolding find set_header
find-set_header name value [] = ground (arith, ==_refl name)
find-set_header name value ((n, v) ∷ headers) =
    ground (arith, ==_refl name, find-set_header name value headers)

pub find-set_header_ne :
    (name other value : Text) (headers : Headers)
    → name ≢ other
    → find other (set_header name value headers) ≡ find other headers
unfolding find set_header
find-set_header_ne name other value [] ne = ground (arith, ==_of_ne name other ne)
find-set_header_ne name other value ((n, v) ∷ headers) ne =
    ground
      (arith, ==_of_ne name other ne, eq_of_== n name, find-set_header_ne name other value headers)

-- A response that the rest of the application makes for a request under an id goes out with that
-- id in `X-Request-ID`, with its status and its body, and with every other header as it was; the id
-- is the one that the caller sent, or the fresh one where none or an empty one was sent.
request_context_middleware_lem :
    (request : Request) (fresh other : Text) (call_next : Request → Result Response) (r : Response)
    → request_id_header ≢ other
    → call_next
        (record request { request_id = some (chosen_id (request.header request_id_header) fresh) })
      ≡ ok r
    → (out : Response) × (request_context_middleware request fresh call_next ≡ ok out)
      × (find request_id_header out.headers
          ≡ some (chosen_id (request.header request_id_header) fresh))
      × (find other out.headers ≡ find other r.headers)
      × (out.status ≡ r.status)
      × (out.body ≡ r.body)
unfolding request_context_middleware
request_context_middleware_lem request fresh other call_next r ne h =
    let id = chosen_id (request.header request_id_header) fresh in
    (
      record r { headers = set_header request_id_header id r.headers },
      rw h refl,
      find-set_header request_id_header id r.headers,
      find-set_header_ne request_id_header other id r.headers ne,
      refl,
      refl,
    )
