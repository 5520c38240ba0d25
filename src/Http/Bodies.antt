-- ===== src/Http/Bodies.antt =====
-- The response models of app/schemas.py as FastAPI writes them: a JSON object of their fields, in
-- order, with `null` for `None` and ISO text for a date.
use issues_api_testbed.Prelude.Int.{ℤ}
use issues_api_testbed.Prelude.{Option, none, some, List, map, Text, text}
use issues_api_testbed.Python.{Json, null, int, str, arr, obj, end, field, to_items}
use issues_api_testbed.Errors.{opt_str}
use issues_api_testbed.Schemas.{Issue, Comment}
use issues_api_testbed.Http.{
  Body, empty, json, issue, issues, comment, comments, events, EventRecord,
}

abbrev pub opt_int : Option ℤ → Json
opt_int none = null
opt_int (some i) = int i

abbrev pub texts : List Text → Json
texts ss = arr (to_items (map str ss))

unfoldable pub dump_issue : Issue → Json
dump_issue i = obj (
    field (text "number") (int i.number) (
      field (text "title") (str i.title) (
        field (text "body") (opt_str i.body) (
          field (text "state") (str i.state) (
            field (text "labels") (texts i.labels) (
              field (text "html_url") (str i.html_url) (
                field (text "user") (opt_str i.user) (
                  field (text "comments") (int i.comments) (
                    field (text "created_at") (str i.created_at) (
                      field (text "updated_at") (str i.updated_at)
                        (field (text "closed_at") (opt_str i.closed_at) end)))))))))))

unfoldable pub dump_comment : Comment → Json
dump_comment c = obj (
    field (text "id") (int c.id) (
      field (text "body") (str c.body) (
        field (text "user") (opt_str c.user) (
          field (text "html_url") (str c.html_url) (
            field (text "created_at") (str c.created_at) (
              field (text "updated_at") (opt_str c.updated_at)
                (field (text "issue_number") (opt_int c.issue_number) end)))))))

unfoldable pub dump_event : EventRecord → Json
dump_event e = obj (
    field (text "id") (str e.id) (
      field (text "event") (str e.event) (
        field (text "action") (opt_str e.action) (
          field (text "issue_number") (opt_int e.issue_number)
            (field (text "timestamp") (str e.timestamp) end)))))

-- the JSON of a body, where it has any
unfoldable pub rendered : Body → Option Json
rendered empty = none
rendered (json j) = some j
rendered (issue i) = some (dump_issue i)
rendered (issues is) = some (arr (to_items (map dump_issue is)))
rendered (comment c) = some (dump_comment c)
rendered (comments cs) = some (arr (to_items (map dump_comment cs)))
rendered (events es) = some (arr (to_items (map dump_event es)))
