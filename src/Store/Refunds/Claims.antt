-- ===== src/Store/Refunds/Claims.antt =====
-- A refund by the platform is claimed once, until a refusal by the platform is recorded.
use relay_scope.Base.{
  ℕ, ◌≡◌, refl, ap, All, Bool, true, ◌==◌, ◌&&◌, Bool-cases, exists_where, updated, inl, inr, false,
  none, some, List, [], ◌∷◌, ◌++◌, arith, Option-cases, select_first, select_first-update_where,
  select_first-holds,
}
use relay_scope.Store.{RefundAttempt, Db, refund_claimed, RefundStatus, running, ok, err}
use relay_scope.Store.Refunds.{
  platform_refundable, is_refund_result, attempt_of, is_rejected, claim_row, claim_platform_refund,
  running_attempt, result_row, record_platform_refund_result,
}

-- The first attempt of the order has this status.
abbrev pub HasStatus : ℕ → RefundStatus → Db → Type 0
HasStatus id s db =
    (a : RefundAttempt) × (select_first (attempt_of id) db.attempts ≡ some a) × (a.status ≡ s)

append-select :
    (id : ℕ) (a : RefundAttempt) (rows : List RefundAttempt)
    → select_first (attempt_of id) rows ≡ none
    → a.order_id ≡ id
    → select_first (attempt_of id) (rows ++ a ∷ []) ≡ some a
unfolding select_first
append-select id a [] h e = ground arith
append-select id a (b ∷ rows) h e = ground (arith, append-select id a rows)

claimed-running :
    (id now : ℕ) (db db' : Db)
    → claim_platform_refund id now db ≡ (db', ok tt)
    → HasStatus id running db'
unfolding claim_platform_refund claim_row
claimed-running id now db db' h = elim (Option-cases (select_first (attempt_of id) db.attempts)) [
  | inl new ↦
      let row : RefundAttempt = record { order_id = id; status = running; updated_at = now } in
      (row, ground (arith, new, append-select id row db.attempts new refl), refl)
  | inr (a, e) ↦
      let kept =
        select_first-update_where (attempt_of id) (attempt_of id) (claim_row now) db.attempts a
          (λ b. refl) e in
      (
        claim_row now a,
        ground (arith, e, kept, select_first-holds (attempt_of id) db.attempts a e),
        refl,
      )
]

claimed-live :
    (now other : ℕ) (a : RefundAttempt)
    → is_rejected a.status ≡ false
    → is_rejected (updated (attempt_of other) (claim_row now) a).status ≡ false
unfolding claim_row
claimed-live now other a live = ground (arith, live)

result-live :
    (now other id : ℕ) (s : RefundStatus) (a : RefundAttempt)
    → attempt_of id a ≡ true
    → (other == id && is_rejected s) ≡ false
    → is_rejected a.status ≡ false
    → is_rejected (updated (running_attempt other) (result_row s now) a).status ≡ false
unfolding result_row
result-live now other id s a own fine live = ground arith

-- What can happen to the attempts: a claim of an order's refund at a time, a result of it, and whatever changes other
-- tables only.
pub data RefundCall : Type 0 where
  claim : ℕ → ℕ → RefundCall
  result : ℕ → RefundStatus → ℕ → RefundCall
  elsewhere : Db → RefundCall

abbrev pub after_call : RefundCall → Db → Db
after_call (claim id now) db = (claim_platform_refund id now db).0
after_call (result id s now) db = (record_platform_refund_result id s now db).0
after_call (elsewhere other) db = record other { attempts = db.attempts }

abbrev pub after_calls : List RefundCall → Db → Db
after_calls [] db = db
after_calls (c ∷ calls) db = after_calls calls (after_call c db)

-- A refusal by the platform, recorded for the order.
abbrev pub is_refusal : ℕ → RefundCall → Bool
is_refusal id (claim other now) = false
is_refusal id (result other s now) = other == id && is_rejected s
is_refusal id (elsewhere other) = false

-- The order has an attempt, which was not refused.
abbrev IsHeld : ℕ → List RefundAttempt → Type 0
IsHeld id rows =
    (a : RefundAttempt) × (select_first (attempt_of id) rows ≡ some a)
    × (is_rejected a.status ≡ false)

append-select-found :
    (id : ℕ) (x a : RefundAttempt) (rows : List RefundAttempt)
    → select_first (attempt_of id) rows ≡ some a
    → select_first (attempt_of id) (rows ++ x ∷ []) ≡ some a
unfolding select_first
append-select-found id x a [] h = cc
append-select-found id x a (r ∷ rows) h = ground (arith, append-select-found id x a rows)

claim-IsHeld :
    (id other now : ℕ) (db : Db)
    → IsHeld id db.attempts
    → IsHeld id (claim_platform_refund other now db).0.attempts
unfolding claim_platform_refund claim_row
claim-IsHeld id other now db (a, e, live) =
    let kept =
      select_first-update_where (attempt_of id) (attempt_of other) (claim_row now) db.attempts a
        (λ b. refl) e in
    elim (Bool-cases (exists_where (platform_refundable other) db.orders)) [
      | inr closed ↦ rw (closed, claim_platform_refund) (a, e, live)
      | inl due ↦ elim (Option-cases (select_first (attempt_of other) db.attempts)) [
        | inl new ↦
            rw (due, new, claim_platform_refund)
              (
                a,
                append-select-found id
                    (record { order_id = other; status = running; updated_at = now }) a db.attempts
                    e,
                live,
              )
        | inr (b, there) ↦ elim (Bool-cases (is_rejected b.status)) [
          | inr taken ↦ rw (due, there, taken, claim_platform_refund) (a, e, live)
          | inl refused ↦
              rw (due, there, refused, claim_platform_refund)
                (updated (attempt_of other) (claim_row now) a, kept, claimed-live now other a live)
        ]
      ]
    ]

result-IsHeld :
    (id other now : ℕ) (s : RefundStatus) (db : Db)
    → (other == id && is_rejected s) ≡ false
    → IsHeld id db.attempts
    → IsHeld id (record_platform_refund_result other s now db).0.attempts
unfolding record_platform_refund_result result_row
result-IsHeld id other now s db fine (a, e, live) =
    let kept =
      select_first-update_where (attempt_of id) (running_attempt other) (result_row s now)
        db.attempts a (λ b. refl) e in
    let own = select_first-holds (attempt_of id) db.attempts a e in
    elim (Bool-cases (is_refund_result s)) [
      | inr odd ↦ rw (odd, record_platform_refund_result) (a, e, live)
      | inl known ↦
          rw (known, record_platform_refund_result)
            (
              updated (running_attempt other) (result_row s now) a,
              kept,
              result-live now other id s a own fine live,
            )
    ]

call-IsHeld :
    (id : ℕ) (c : RefundCall) (db : Db)
    → is_refusal id c ≡ false
    → IsHeld id db.attempts
    → IsHeld id (after_call c db).attempts
call-IsHeld id (claim other now) db fine held = claim-IsHeld id other now db held
call-IsHeld id (result other s now) db fine held = result-IsHeld id other now s db fine held
call-IsHeld id (elsewhere other) db fine held = held

calls-IsHeld :
    (id : ℕ) (calls : List RefundCall) (db : Db)
    → All (λ c. is_refusal id c ≡ false) calls
    → IsHeld id db.attempts
    → IsHeld id (after_calls calls db).attempts
calls-IsHeld id [] db fine held = held
calls-IsHeld id (c ∷ calls) db fine held =
    calls-IsHeld id calls (after_call c db) fine.1 (call-IsHeld id c db fine.0 held)

held-refused :
    (id now : ℕ) (db : Db)
    → IsHeld id db.attempts
    → claim_platform_refund id now db ≡ (db, err refund_claimed)
unfolding claim_platform_refund
held-refused id now db (a, e, live) = ground (arith, e, live)

-- After a claim of an order's refund that succeeded, every later claim of it is refused and changes nothing, as long as
-- no refusal by the platform is recorded for the order: whatever claims and results of any orders, and changes of other
-- tables, come in between.
pub claim_platform_refund_once :
    (id claimed again : ℕ) (db db' : Db) (calls : List RefundCall)
    → claim_platform_refund id claimed db ≡ (db', ok tt)
    → All (λ c. is_refusal id c ≡ false) calls
    → claim_platform_refund id again (after_calls calls db')
      ≡ (after_calls calls db', err refund_claimed)
claim_platform_refund_once id claimed again db db' calls h fine =
    let (a, e, runs) = claimed-running id claimed db db' h in
    held-refused id again (after_calls calls db')
      (calls-IsHeld id calls db' fine (a, e, ap is_rejected runs))
