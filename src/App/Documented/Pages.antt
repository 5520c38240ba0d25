-- ===== src/App/Documented/Pages.antt =====
-- Responses with the response models are documented.
use issues_api_testbed.Prelude.{List, ℕ, ◌≡◌, true, some}
use issues_api_testbed.Errors.{Headers, ok}
use issues_api_testbed.Http.{issue, issues, comment, comments}
use issues_api_testbed.Http.Bodies.{rendered, dump_issue, dump_comment}
use issues_api_testbed.Schemas.{Issue, Comment}
use issues_api_testbed.App.Documented.Tame.{is_answer}
use issues_api_testbed.Contract.Shapes.{loosened}
use issues_api_testbed.Contract.Schemas.{issue_shape, comment_shape}
use issues_api_testbed.Contract.Responses.{Operation, json_of, is_documented, documented}
use issues_api_testbed.Contract.Fits.{dump_issue-fits, dump_comment-fits, list-fits}

pub issue_is_documented :
    (op : Operation) (status : ℕ) (headers : Headers) (i : Issue)
    → documented op status ≡ some (json_of issue_shape)
    → is_answer op (ok (record { status = status; headers = headers; body = issue i })) ≡ true
unfolding is_answer is_documented rendered
issue_is_documented op status headers i h = rw h (dump_issue-fits i)

pub issues_are_documented :
    (headers : Headers) (is : List Issue)
    → is_answer Operation.list_issues
        (ok (record { status = 200; headers = headers; body = issues is }))
      ≡ true
unfolding is_answer is_documented rendered documented
issues_are_documented headers is = list-fits (loosened issue_shape) dump_issue dump_issue-fits is

pub comment_is_documented :
    (headers : Headers) (c : Comment)
    → is_answer Operation.create_comment
        (ok (record { status = 201; headers = headers; body = comment c }))
      ≡ true
unfolding is_answer is_documented rendered documented
comment_is_documented headers c = dump_comment-fits c

pub comments_are_documented :
    (headers : Headers) (cs : List Comment)
    → is_answer Operation.list_comments
        (ok (record { status = 200; headers = headers; body = comments cs }))
      ≡ true
unfolding is_answer is_documented rendered documented
comments_are_documented headers cs =
    list-fits (loosened comment_shape) dump_comment dump_comment-fits cs
