-- ===== src/Replay/Posted.antt =====
-- What the script's deliveries leave in the store.
use issues_api_testbed.Prelude.{
  ℕ, zero, suc, ◌≡◌, ◌≢◌, refl, ap, ◌∙◌, true, false, none, some, List, [], ◌∷◌, ◌++◌, arith, Text,
  text_eq, if◌then◌else◌, Option-cases, inl, inr,
}
use issues_api_testbed.Errors.{ok}
use issues_api_testbed.Http.{Request}
use issues_api_testbed.Store.Payloads.{unmentioned}
use issues_api_testbed.Store.{Sqlite, Event, EventStore, IsSqlite, mentions, has_delivery, event_of}
use issues_api_testbed.Store.Idempotent.{absorb, has_delivery-append}
use issues_api_testbed.Store.Redelivery.{after, binds, record_event-arrivals}
use issues_api_testbed.Routes.Webhooks.{
  Services, Delivery, check_delivery, event_row, receive_webhook,
}
use issues_api_testbed.Routes.Webhooks.Deliveries.{same_key_later}
use issues_api_testbed.Replay.Defs.{post_times}
use issues_api_testbed.Replay.Service.{Running, local}

-- a new row that can be bound is added
absorbed_new :
    (db : Sqlite) (e : Event) (d : db.Database)
    → mentions e.delivery_id (db.rows d) ≡ false
    → db.insert_or_ignore e d ≢ none
    → (if binds db e d then absorb (db.rows d) e else db.rows d) ≡ db.rows d ++ e ∷ []
absorbed_new db e d new bound = elim (Option-cases (db.insert_or_ignore e d)) [
  | inl unbound ↦ absurd (bound unbound)
  | inr (r, put) ↦ ground (arith, unmentioned e (db.rows d))
]

module _ (sv : Services) (law : IsSqlite sv.db) (time : ℕ → Text) (request : Request)
    (dl : Delivery) (passed : check_delivery sv request ≡ ok dl) where
  open sv use {db}

  received_store :
      (now : Text) (st : EventStore db.Database)
      → (receive_webhook sv request now st).1 ≡ after db (event_row sv dl now) st
  unfolding receive_webhook
  received_store now st = ground arith

  has_row :
      (now : Text) (rows : List Event) (then_at : Text)
      → has_delivery (event_row sv dl now) (rows ++ event_row sv dl then_at ∷ []) ≡ true
  has_row now rows then_at = ground (
    arith,
    has_delivery-append (event_row sv dl now) rows (event_row sv dl then_at),
    same_key_later sv law dl then_at now,
  )

  -- one attempt
  abbrev tried : Running db.Database → Running db.Database
  tried s = ((local sv time).post request s).1

  tried_store :
      (s : Running db.Database)
      → (tried s).store ≡ after db (event_row sv dl (time s.ticks)) s.store
  unfolding local
  tried_store s = received_store (time s.ticks) s.store

  try_again :
      (n : ℕ) (s : Running db.Database)
      → post_times (local sv time) (suc n) request s
        ≡ post_times (local sv time) n request (tried s)
  unfolding post_times local
  try_again n s = refl

  -- the attempts behind the first change no row
  posts_seen :
      (n : ℕ) (s : Running db.Database) (d : db.Database)
      → s.store.open_on ≡ some d
      → ((now : Text) → has_delivery (event_row sv dl now) (db.rows d) ≡ true)
      → ((post_times (local sv time) n request s).0 ≡ ok tt)
        × (d' : db.Database) × ((post_times (local sv time) n request s).1.store.open_on ≡ some d')
        × (db.rows d' ≡ db.rows d)
  unfolding post_times
  posts_seen zero s d o seen = (refl, d, o, refl)
  posts_seen (suc n) s d o seen =
      let row = event_row sv dl (time s.ticks) in
      let (d', o', kept) = record_event-arrivals db law row d s.store o in
      let same : db.rows d' ≡ db.rows d = kept ∙ ground (arith, seen (time s.ticks)) in
      let (sent, d'', o'', kept') =
        posts_seen n (tried s) d'
          (ap (λ (x : EventStore db.Database). x.open_on) (tried_store s) ∙ o')
          (λ now. rw same (seen now)) in
      rw (try_again n s) (sent, d'', o'', kept' ∙ same)

  -- However many attempts there are, if there is one, the rows are those from before and one for
  -- the delivery, at the time of the first attempt.
  pub posts_stored :
      (n : ℕ) (s : Running db.Database) (d : db.Database)
      → s.store.open_on ≡ some d
      → mentions dl.delivery_id (db.rows d) ≡ false
      → db.insert_or_ignore (event_row sv dl (time s.ticks)) d ≢ none
      → ((post_times (local sv time) (suc n) request s).0 ≡ ok tt)
        × (d' : db.Database) × ((post_times (local sv time) (suc n) request s).1.store.open_on
            ≡ some d')
        × (db.rows d' ≡ db.rows d ++ event_row sv dl (time s.ticks) ∷ [])
  unfolding event_of
  posts_stored n s d o new bound =
      let row = event_row sv dl (time s.ticks) in
      let (d', o', kept) = record_event-arrivals db law row d s.store o in
      let added : db.rows d' ≡ db.rows d ++ row ∷ [] = kept ∙ absorbed_new db row d new bound in
      let (sent, d'', o'', kept') =
        posts_seen n (tried s) d'
          (ap (λ (x : EventStore db.Database). x.open_on) (tried_store s) ∙ o')
          (λ now. rw added (has_row now (db.rows d) (time s.ticks))) in
      rw (try_again n s) (sent, d'', o'', kept' ∙ added)
