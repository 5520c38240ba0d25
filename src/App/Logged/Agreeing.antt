-- ===== src/App/Logged/Agreeing.antt =====
-- The lines of the issue routes: none has another id than that of its request.
use issues_api_testbed.Prelude.{
  inl, inr, refl, ℕ, Bool, true, false, not, Bool-cases, Option, Option-cases, none, some, List, [],
  ◌∷◌, ◌++◌, All, All-append, All-map, Text, text, text_beq, text_ne, text_eq, nat_eq, pair_eq,
  is_empty, ◌&&◌,
}
use issues_api_testbed.Python.{Json, lookup}
use issues_api_testbed.Errors.{Result, ok, raise}
use issues_api_testbed.Schemas.{IssueCreate, IssuePatch, CommentCreate}
use issues_api_testbed.Cache.{CachedList, CacheKey}
use issues_api_testbed.Cache.Lines.{set_lines}
use issues_api_testbed.Logging.Lines.{Line}
use issues_api_testbed.Logging.Carried.{IsFree, Agrees}
use issues_api_testbed.Github.{Call, GitHubResult}
use issues_api_testbed.Github.Lines.{call_lines}
use issues_api_testbed.Github
use issues_api_testbed.Routes.Issues
use issues_api_testbed.Routes.Issues.{ListQuery, nonempty, is_text, wanted_etag, look_up, entry_of}
use issues_api_testbed.Routes.Issues.Lines
use issues_api_testbed.Routes.Issues.Lines.{then_lines}

abbrev pub key : Text
key = text "request_id"

pub key-IsFree : IsFree key
unfolding text text_beq
key-IsFree = record {
  event = text_ne _ _ refl;
  level = text_ne _ _ refl;
  timestamp = text_ne _ _ refl;
  stack_info = text_ne _ _ refl;
  stack = text_ne _ _ refl;
  exc_info = text_ne _ _ refl;
  exception = text_ne _ _ refl;
}

module _ (v : Json) where
  -- lines that agree with the id
  pub record AllAgree (ls : List Line) : Type 0 where
    pub each : All (Agrees key v) ls

  pub no-AllAgree : AllAgree []
  no-AllAgree = record { each = tt }

  pub cons-AllAgree : {l : Line} {ls : List Line} → Agrees key v l → AllAgree ls → AllAgree (l ∷ ls)
  cons-AllAgree h k = record { each = (h, k.each) }

  pub append-AllAgree : (ls ms : List Line) → AllAgree ls → AllAgree ms → AllAgree (ls ++ ms)
  append-AllAgree ls ms h k = record { each = All-append (Agrees key v) ls ms h.each k.each }

  pub then_lines-AllAgree :
      {A : Type 0} (r : Result A) (f : A → List Line)
      → ((a : A) → AllAgree (f a))
      → AllAgree (then_lines r f)
  unfolding then_lines
  then_lines-AllAgree (ok a) f h = h a
  then_lines-AllAgree (raise e) f h = no-AllAgree

  call_lines-AllAgree : (d : Json) (c : Call) (o : Github.Outcome) → AllAgree (call_lines d c o)
  unfolding call_lines lookup text text_beq
  call_lines-AllAgree d c Github.timeout = cons-AllAgree (inl refl) no-AllAgree
  call_lines-AllAgree d c (Github.transport name) = cons-AllAgree (inl refl) no-AllAgree
  call_lines-AllAgree d c (Github.failed x) = no-AllAgree
  call_lines-AllAgree d c (Github.replied r) = cons-AllAgree (inl refl) no-AllAgree

  module _ (sv : Issues.Services) (d : Json) (show : CacheKey → Text) where
    pub create_issue_lines-AllAgree :
        (c : IssueCreate) → AllAgree (Lines.create_issue_lines sv d show c)
    unfolding Lines.create_issue_lines lookup text text_beq
    create_issue_lines-AllAgree c =
        append-AllAgree _ _ (call_lines-AllAgree d _ _)
          (then_lines-AllAgree _ _ λ i. cons-AllAgree (inl refl) no-AllAgree)

    pub get_issue_lines-AllAgree : (n : ℕ) → AllAgree (Lines.get_issue_lines sv d show n)
    unfolding Lines.get_issue_lines
    get_issue_lines-AllAgree n = call_lines-AllAgree d _ _

    pub update_issue_lines-AllAgree :
        (n : ℕ) (c : IssuePatch) → AllAgree (Lines.update_issue_lines sv d show n c)
    unfolding Lines.update_issue_lines lookup text text_beq
    update_issue_lines-AllAgree n c =
        append-AllAgree _ _ (call_lines-AllAgree d _ _)
          (then_lines-AllAgree _ _ λ i. cons-AllAgree (inl refl) no-AllAgree)

    pub create_comment_lines-AllAgree :
        (n : ℕ) (c : CommentCreate) → AllAgree (Lines.create_comment_lines sv d show n c)
    unfolding Lines.create_comment_lines lookup text text_beq
    create_comment_lines-AllAgree n c =
        append-AllAgree _ _ (call_lines-AllAgree d _ _)
          (then_lines-AllAgree _ _ λ i. cons-AllAgree (inl refl) no-AllAgree)

    pub list_comments_lines-AllAgree :
        (n page per_page : ℕ) → AllAgree (Lines.list_comments_lines sv d show n page per_page)
    unfolding Lines.list_comments_lines
    list_comments_lines-AllAgree n page per_page = call_lines-AllAgree d _ _

    set_lines-AllAgree :
        (k : CacheKey) (e : CachedList) (c : Issues.Cache) → AllAgree (set_lines show k e c)
    unfolding set_lines lookup text text_beq
    set_lines-AllAgree k e c = record { each = All-map (Agrees key v) _ _ λ x. inl refl }

    missed_lines-AllAgree :
        (q : ListQuery) (r : Result CachedList) (c : Issues.Cache)
        → AllAgree (Lines.missed_lines sv d show q r c)
    unfolding Lines.missed_lines
    missed_lines-AllAgree q (raise e) c = no-AllAgree
    missed_lines-AllAgree q (ok entry) c =
        elim (Bool-cases (sv.cache_enabled && not (is_empty entry.etag))) [
          | inl kept ↦ rw kept (set_lines-AllAgree _ entry c)
          | inr left ↦ rw left no-AllAgree
        ]

    served_lines-AllAgree :
        (q : ListQuery) (cached : Option CachedList) (hit : Bool) (r : GitHubResult)
        (c : Issues.Cache)
        → AllAgree (Lines.served_lines sv d show q cached hit r c)
    unfolding Lines.served_lines lookup text text_beq
    served_lines-AllAgree q none hit r c = missed_lines-AllAgree q _ c
    served_lines-AllAgree q (some entry) false r c = missed_lines-AllAgree q _ c
    served_lines-AllAgree q (some entry) true r c = cons-AllAgree (inl refl) no-AllAgree

    answered_lines-AllAgree :
        (q : ListQuery) (cached : Option CachedList) (r : GitHubResult) (c : Issues.Cache)
        → AllAgree (Lines.answered_lines sv d show q cached r c)
    unfolding Lines.answered_lines
    answered_lines-AllAgree q cached r c = elim (Option-cases (nonempty q.if_none_match)) [
      | inl bare ↦ rw (bare, Lines.answered_lines) (served_lines-AllAgree q cached _ r c)
      | inr (e, sent) ↦
          elim (Bool-cases
            (Github.not_modified r && is_text (wanted_etag q.if_none_match cached) e)) [
              | inl own ↦ rw (sent, Lines.answered_lines) (rw own no-AllAgree)
              | inr other ↦
                  rw (sent, Lines.answered_lines) (rw other (served_lines-AllAgree q cached _ r c))
            ]
    ]

    pub list_issues_lines-AllAgree :
        (q : ListQuery) (c : Issues.Cache) → AllAgree (Lines.list_issues_lines sv d show q c)
    unfolding Lines.list_issues_lines
    list_issues_lines-AllAgree q c =
        let (cached, c') = look_up sv q c in
        append-AllAgree _ _ (call_lines-AllAgree d _ _)
          (then_lines-AllAgree _ _ λ r. answered_lines-AllAgree q cached r c')
