-- ===== src/Store/Newest.antt =====
-- A row that is at least as new as all others stands first in what `recent` returns.
use issues_api_testbed.Prelude.{
  ◌≡◌, refl, ◌∙◌, true, List, [], ◌∷◌, ◌++◌, All, Bool-cases, inl, inr,
}
use issues_api_testbed.Store.Sql.{Event, text_leb, insert_desc, order_onto, order_by}

insert_desc-newest :
    (e : Event) (rows : List Event)
    → All (λ r. text_leb r.received_at e.received_at ≡ true) rows
    → insert_desc e rows ≡ e ∷ rows
unfolding insert_desc
insert_desc-newest e [] h = refl
insert_desc-newest e (r ∷ rows) h = rw h.0

order_onto-append :
    (sorted rows : List Event) (e : Event)
    → order_onto sorted (rows ++ e ∷ []) ≡ insert_desc e (order_onto sorted rows)
unfolding order_onto
order_onto-append sorted [] e = refl
order_onto-append sorted (r ∷ rows) e = order_onto-append (insert_desc r sorted) rows e

module _ (P : Event → Type 0) where
  insert_desc-All : (e : Event) (rows : List Event) → P e → All P rows → All P (insert_desc e rows)
  unfolding insert_desc
  insert_desc-All e [] p h = (p, tt)
  insert_desc-All e (r ∷ rows) p h = elim (Bool-cases (text_leb r.received_at e.received_at)) [
    | inl newer ↦ rw newer (p, h)
    | inr older ↦ rw older (h.0, insert_desc-All e rows p h.1)
  ]

  order_onto-All :
      (sorted rows : List Event) → All P sorted → All P rows → All P (order_onto sorted rows)
  unfolding order_onto
  order_onto-All sorted [] s h = s
  order_onto-All sorted (r ∷ rows) s h =
      order_onto-All (insert_desc r sorted) rows (insert_desc-All r sorted h.0 s) h.1

  pub order_by-All : (rows : List Event) → All P rows → All P (order_by rows)
  unfolding order_by
  order_by-All rows h = order_onto-All [] rows tt h

pub order_by-append :
    (rows : List Event) (e : Event)
    → All (λ r. text_leb r.received_at e.received_at ≡ true) rows
    → order_by (rows ++ e ∷ []) ≡ e ∷ order_by rows
unfolding order_by
order_by-append rows e h =
    order_onto-append [] rows e
    ∙ insert_desc-newest e (order_onto [] rows)
        (order_onto-All (λ r. text_leb r.received_at e.received_at ≡ true) [] rows tt h)
