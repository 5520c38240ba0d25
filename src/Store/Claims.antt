-- ===== src/Store/Claims.antt =====
-- Which calls of `record` have reported, or will report, that they stored a delivery.
use issues_api_testbed.Prelude.{
  ℕ, ◌+◌, ◌≡◌, refl, true, false, ◌&&◌, List, [], ◌∷◌, arith, All, ltb, nat_eq, if◌then◌else◌,
  ==_refl, text_eq,
}
use issues_api_testbed.Store.Sql.{Event, same_key, has_delivery}
use issues_api_testbed.Store.Idempotent.{absorb, has_delivery-append}
use issues_api_testbed.Store.Redelivery.{has_delivery_cong}
use issues_api_testbed.Store.Interleaved.{Inserted, Returned, Takes, first, later}

-- the calls for a key that have reported their delivery as stored, and those that will
abbrev pub won : Event → List Returned → ℕ
won k [] = 0
won k (r ∷ rs) = (if r.stored && same_key k r.event then 1 else 0) + won k rs

abbrev pub will_win : Event → List Inserted → ℕ
will_win k [] = 0
will_win k (p ∷ ps) = (if ltb 0 p.rowcount && same_key k p.event then 1 else 0) + will_win k ps

abbrev pub Seen : List Event → Inserted → Type 0
Seen rows p = has_delivery p.event rows ≡ true

abbrev pub Kept : List Event → Returned → Type 0
Kept rows r = has_delivery r.event rows ≡ true

pub will_win_unseen :
    (k : Event) (rows : List Event) (ps : List Inserted)
    → has_delivery k rows ≡ false
    → All (Seen rows) ps
    → will_win k ps ≡ 0
will_win_unseen k rows [] h all = refl
will_win_unseen k rows (p ∷ ps) h all =
    ground (arith, has_delivery_cong k p.event rows, will_win_unseen k rows ps h all.1)

pub won_unseen :
    (k : Event) (rows : List Event) (rs : List Returned)
    → has_delivery k rows ≡ false
    → All (Kept rows) rs
    → won k rs ≡ 0
won_unseen k rows [] h all = refl
won_unseen k rows (r ∷ rs) h all =
    ground (arith, has_delivery_cong k r.event rows, won_unseen k rows rs h all.1)

pub has_delivery-absorb :
    (k e : Event) (rows : List Event)
    → has_delivery k rows ≡ true
    → has_delivery k (absorb rows e) ≡ true
has_delivery-absorb k e rows h = ground (arith, has_delivery-append k rows e)

pub has_delivery-absorb_self :
    (e : Event) (rows : List Event) → has_delivery e (absorb rows e) ≡ true
has_delivery-absorb_self e rows =
    ground (arith, has_delivery-append e rows e, ==_refl e.delivery_id, ==_refl e.action)

pub All-Seen-mono :
    (rows rows' : List Event)
    → ((k : Event) → has_delivery k rows ≡ true → has_delivery k rows' ≡ true)
    → (ps : List Inserted) → All (Seen rows) ps
    → All (Seen rows') ps
All-Seen-mono rows rows' h [] all = tt
All-Seen-mono rows rows' h (p ∷ ps) all = (h p.event all.0, All-Seen-mono rows rows' h ps all.1)

pub All-Kept-mono :
    (rows rows' : List Event)
    → ((k : Event) → has_delivery k rows ≡ true → has_delivery k rows' ≡ true)
    → (rs : List Returned) → All (Kept rows) rs
    → All (Kept rows') rs
All-Kept-mono rows rows' h [] all = tt
All-Kept-mono rows rows' h (r ∷ rs) all = (h r.event all.0, All-Kept-mono rows rows' h rs all.1)

pub taken :
    (rows : List Event) {p : Inserted} {ps qs : List Inserted}
    → Takes p ps qs
    → All (Seen rows) ps
    → Seen rows p × All (Seen rows) qs
taken rows first all = all
taken rows (later t) all = let (mine, rest) = taken rows t all.1 in (mine, (all.0, rest))

pub will_win_taken :
    (k : Event) {p : Inserted} {ps qs : List Inserted}
    → Takes p ps qs
    → will_win k ps ≡ will_win k (p ∷ qs)
will_win_taken k first = refl
will_win_taken k (later {x} {ps} {qs} t) = omega (arith, will_win_taken k t)
