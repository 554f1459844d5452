-- ===== src/RunLocks/Exclusion.antt =====
-- A lock that is not stale keeps all other owners out (lib/project-store.ts).
use deeprun.Prelude.{
  ℕ, ◌+◌, ◌≤◌, ◌≡◌, refl, ap, ◌∙◌, Bool, true, false, ◌==◌, List, [], ◌∷◌, Option, none, some,
  arith, All, is_some, Bool-cases, inl, inr, ==_iff, ◌⊎◌,
}
use deeprun.RunLocks.Model.{
  LockRow, LockTable, stale_seconds, lock_owned_by, is_stale, can_acquire, can_release, can_refresh,
  update_found, acquired, acquire_agent_run_execution_lock, release_agent_run_execution_lock,
  refresh_agent_run_execution_lock, LockCall, tick, acquire, release, refresh, lock_call,
  lock_calls,
}

-- The owner holds the lock of the row since `at`.
abbrev pub Holds : ℕ → ℕ → LockRow → Type 0
Holds owner at r = (r.run_lock_owner ≡ some owner) × (r.run_lock_acquired_at ≡ some at)

-- A call of another owner, or on another run, that takes a lock for stale only after `patience`.
abbrev pub FromOther : ℕ → ℕ → ℕ → LockCall → Type 0
FromOther run_id owner patience (tick n) = Unit
FromOther run_id owner patience (acquire k o stale) =
    ((k == run_id) ≡ false) ⊎ (((o == owner) ≡ false) × (patience ≤ stale_seconds stale))
FromOther run_id owner patience (release k o) = ((k == run_id) ≡ false) ⊎ ((o == owner) ≡ false)
FromOther run_id owner patience (refresh k o) = ((k == run_id) ≡ false) ⊎ ((o == owner) ≡ false)

abbrev pub elapsed : List LockCall → ℕ
elapsed [] = 0
elapsed (tick n ∷ cs) = n + elapsed cs
elapsed (_ ∷ cs) = elapsed cs

-- A refused update keeps the table; one on another run keeps the row.
module _ (p : LockRow → Bool) (f : LockRow → LockRow) (k : ℕ) (t : LockTable) where
  other_row :
      (run_id : ℕ)
      → (k == run_id) ≡ false
      → (update_found (t.rows k) k p f t).1.rows run_id ≡ t.rows run_id
  other_row run_id away = ground arith

  refused_row :
      (r : LockRow) → t.rows k ≡ some r → p r ≡ false → (update_found (t.rows k) k p f t).1 ≡ t
  refused_row r e no_match = rw e (rw no_match refl)

  refused_keeps :
      (run_id : ℕ) (r : LockRow)
      → t.rows run_id ≡ some r
      → p r ≡ false
      → (update_found (t.rows k) k p f t).1.rows run_id ≡ some r
  refused_keeps run_id r e no_match = elim (Bool-cases (k == run_id)) [
    | inr away ↦ other_row run_id away ∙ e
    | inl same ↦
        let at : t.rows k ≡ some r = ap t.rows ((==_iff k run_id).0 same) ∙ e in
        ap (λ u. u.rows run_id) (refused_row r at no_match) ∙ e
  ]

  now-update : (update_found (t.rows k) k p f t).1.now ≡ t.now
  now-update = ground arith

cannot_acquire :
    (o owner at patience now stale : ℕ) (r : LockRow)
    → Holds owner at r
    → (o == owner) ≡ false
    → patience ≤ stale
    → now ≤ at + patience
    → can_acquire o stale now r ≡ false
cannot_acquire o owner at patience now stale r (e, e') other wait time = rw (e, e') (ground arith)

cannot_release :
    (o owner : ℕ) (r : LockRow)
    → r.run_lock_owner ≡ some owner
    → (o == owner) ≡ false
    → can_release o r ≡ false
cannot_release o owner r e other = rw e (ground arith)

cannot_refresh :
    (o owner : ℕ) (r : LockRow)
    → r.run_lock_owner ≡ some owner
    → (o == owner) ≡ false
    → can_refresh o r ≡ false
cannot_refresh o owner r e other = rw e (ground arith)

other_call :
    (c : LockCall) (run_id owner patience at : ℕ) (t : LockTable) (r : LockRow)
    → t.rows run_id ≡ some r
    → Holds owner at r
    → FromOther run_id owner patience c
    → t.now ≤ at + patience
    → (lock_call c t).rows run_id ≡ some r
unfolding acquire_agent_run_execution_lock release_agent_run_execution_lock
    refresh_agent_run_execution_lock
other_call (tick n) run_id owner patience at t r e h other time = e
other_call (acquire k o stale) run_id owner patience at t r e h (inl away) time =
    other_row (can_acquire o (stale_seconds stale) t.now) (acquired o t.now) k t run_id away ∙ e
other_call (acquire k o stale) run_id owner patience at t r e h (inr (o', wait)) time =
    refused_keeps (can_acquire o (stale_seconds stale) t.now) (acquired o t.now) k t run_id r e
      (cannot_acquire o owner at patience t.now (stale_seconds stale) r h o' wait time)
other_call (release k o) run_id owner patience at t r e h (inl away) time =
    other_row (can_release o) _ k t run_id away ∙ e
other_call (release k o) run_id owner patience at t r e h (inr o') time =
    refused_keeps (can_release o) _ k t run_id r e (cannot_release o owner r h.0 o')
other_call (refresh k o) run_id owner patience at t r e h (inl away) time =
    other_row (can_refresh o) _ k t run_id away ∙ e
other_call (refresh k o) run_id owner patience at t r e h (inr o') time =
    refused_keeps (can_refresh o) _ k t run_id r e (cannot_refresh o owner r h.0 o')

now-call : (c : LockCall) (t : LockTable) → (lock_call c t).now ≡ t.now + elapsed (c ∷ [])
unfolding acquire_agent_run_execution_lock release_agent_run_execution_lock
    refresh_agent_run_execution_lock
now-call (tick n) t = omega arith
now-call (acquire k o stale) t = ground arith
now-call (release k o) t = ground arith
now-call (refresh k o) t = ground arith

elapsed-cons :
    (c : LockCall) (cs : List LockCall) → elapsed (c ∷ cs) ≡ elapsed (c ∷ []) + elapsed cs
elapsed-cons (tick n) cs = omega arith
elapsed-cons (acquire k o stale) cs = omega arith
elapsed-cons (release k o) cs = omega arith
elapsed-cons (refresh k o) cs = omega arith

-- While an owner holds the execution lock of a run, no calls of others, in any order and number,
-- change the row, as long as each that acquires waits at least `patience` seconds for a stale lock
-- and no more than that pass after the lock was taken or refreshed.
pub lock_excludes :
    (cs : List LockCall) (run_id owner patience at : ℕ) (t : LockTable) (r : LockRow)
    → t.rows run_id ≡ some r
    → Holds owner at r
    → All (FromOther run_id owner patience) cs
    → t.now + elapsed cs ≤ at + patience
    → (lock_calls cs t).rows run_id ≡ some r
unfolding lock_calls
lock_excludes [] run_id owner patience at t r e h others time = e
lock_excludes (c ∷ cs) run_id owner patience at t r e h (other, others) time =
    let now = now-call c t in
    let split = elapsed-cons c cs in
    lock_excludes cs run_id owner patience at (lock_call c t) r
      (other_call c run_id owner patience at t r e h other (omega (arith, split, time))) h others
      (omega (arith, now, split, time))

abbrev pub Acquires : ℕ → ℕ → ℕ → LockTable → LockRow → Option LockRow × LockTable → Type 0
Acquires run_id owner stale t r (answer, t') =
    (((r.run_lock_owner ≡ none)
        ⊎ ((r.run_lock_owner ≡ some owner) ⊎ (is_stale t.now stale r.run_lock_acquired_at ≡ true)))
      × ((answer ≡ some (acquired owner t.now r))
          × (t'.rows run_id ≡ some (acquired owner t.now r))))
    ⊎ (((lock_owned_by owner r.run_lock_owner ≡ false)
          × ((is_stale t.now stale r.run_lock_acquired_at ≡ false)
              × (is_some r.run_lock_owner ≡ true)))
        × ((answer ≡ none) × (t' ≡ t)))
