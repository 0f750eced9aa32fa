-- ===== src/Pos/Once.antt =====
-- That a synchronisation settles its operation once and for all.
use business_platform.Prelude.{
  Option, if◌then◌else◌, none, some, false, ◌==◌, ◌≡◌, refl, arith, inl, inr, ◌⊎◌, first_cases, sym,
  subst, Bool-cases,
}
use business_platform.Prisma.{Prisma}
use business_platform.Schema.{Db, Key, Instant, Text, PosOperation, PosOperationItem}
use business_platform.Platform.{
  pure, Error, Result, ok, err, within, not_found, operation_not_found, pos_operation_model,
  find_related, Result-cases, conflict, sync_in_progress, ◌>>=◌, or_throw, Action,
}
use business_platform.Platform.Facts.{find_unique_eq}
use business_platform.Platform.Frames.{Keeps, keeps}
use business_platform.Order.Frames.{everything}
use business_platform.Pos.Device.{Crypto}
use business_platform.Pos.Operation.{OperationWithItems, load_operation, with_items}
use business_platform.Pos.Validation.{validate_intent}
use business_platform.Rbac.Permission.{
  Memo, PermissionRequirement, assert_permissions, get_permissions, load_snapshot, role_snapshot,
  granted_keys,
}
use business_platform.Pos.Sync.{
  SyncResult, to_sync_result, is_pending, Wait, await_concurrent_result, claim, claim_and_execute,
  process, assert_sync_authority, sync_operation, result_poll_max,
}
use business_platform.Pos.Settling.{
  Awaited, operation_in, Settles, Settles-bind, Settles-if, Settles-if_found, operation_row,
  persist_rejection-Settles, execute-Settles, await_from-Awaited, Settled,
}

module _ ⦃prisma : Prisma⦄ (t : Key) (now : Instant) (id : Key) where
  await-Awaited :
      (wait : Wait) (db : Db) → Awaited t now id (await_concurrent_result wait id (within t now) db)
  unfolding await_concurrent_result
  await-Awaited wait db = await_from-Awaited t now id wait result_poll_max 0 db

  await-Settles :
      (wait : Wait)
      → Settles t now id
          (await_concurrent_result wait id >>= λ o. or_throw o (conflict sync_in_progress))
  await-Settles wait = record {
    apply = λ db.
        let awaited = await-Awaited wait db in
        elim (Result-cases (await_concurrent_result wait id (within t now) db).0) [
          | inr (x, e) ↦ rw (e, ◌>>=◌) tt
          | inl (none, e) ↦ rw (e, ◌>>=◌) tt
          | inl (some o, e) ↦ rw (e, ◌>>=◌) (rw e at awaited)
        ];
  }

module _ ⦃prisma : Prisma⦄ (t : Key) (now : Instant) (wait : Wait) where
  claim_and_execute-Settles :
      (o : OperationWithItems) → Settles t now o.operation.id (claim_and_execute wait o)
  unfolding claim_and_execute
  claim_and_execute-Settles o =
      let id = o.operation.id in
      Settles-bind t now id (claim id) λ count.
        Settles-if t now id (count == 0) (await-Settles t now id wait) (execute-Settles t now o)

  process-Settles : (o : OperationWithItems) → Settles t now o.operation.id (process wait o)
  unfolding process
  process-Settles o =
      let id = o.operation.id in
      Settles-bind t now id (validate_intent o) λ rejection.
        Settles-if_found t now id rejection (claim_and_execute-Settles o)
          (persist_rejection-Settles t now id)

module _ ⦃prisma : Prisma⦄ (t : Key) (now : Instant) (id : Key) where
  -- The operation as it is loaded.
  load_operation-cases :
      (db : Db)
      → ((o : OperationWithItems) × (load_operation id (within t now) db ≡ (ok o, db))
          × (operation_in t id db ≡ some o.operation)
          × (o.operation.id ≡ id))
        ⊎ ((load_operation id (within t now) db ≡ (err (not_found operation_not_found), db))
            × (operation_in t id db ≡ none))
  unfolding load_operation with_items find_related
  load_operation-cases db =
      let law = find_unique_eq pos_operation_model refl t now db λ (r : PosOperation). r.id == id in
      elim (first_cases (operation_row t now id) db.pos_operations) [
        | inl (e, z) ↦ inr (ground arith, e)
        | inr (o, e, i, own) ↦ inl (
          record {
            operation = o;
            items =
                prisma.find_many PosOperationItem (λ r. r.operation_id == o.id)
                  db.pos_operation_items;
          },
          ground arith,
          e,
          ground arith,
        )
      ]

  assert_permissions-reads :
      (memo : Memo) (user : Key) (r : PermissionRequirement)
      → Keeps (within t now) everything (assert_permissions memo user r)
  unfolding assert_permissions get_permissions load_snapshot role_snapshot granted_keys
  assert_permissions-reads memo user r = search keeps depth 25

-- The result of a synchronisation is what the database says of the operation, which is not pending
-- any more.
abbrev pub Synced : Key → Key → Result SyncResult × Db → Type 0
Synced t id (err e, db') = Unit
Synced t id (ok r, db') =
    (o : PosOperation) × (operation_in t id db' ≡ some o)
    × (is_pending o.status ≡ false)
    × (r ≡ to_sync_result o)

-- A synchronisation that changes nothing, and returns `r` if it returns.
abbrev pub Replays : SyncResult → Db → Result SyncResult × Db → Type 0
Replays r db (err e, db') = db' ≡ db
Replays r db (ok r', db') = (r' ≡ r) × (db' ≡ db)

module _ ⦃prisma : Prisma⦄ ⦃crypto : Crypto⦄ (t : Key) (now : Instant) (id : Key) (wait : Wait)
    (memo : Memo) (user : Key) (credential : Option Text) where
  assert_sync_authority-reads :
      (o : PosOperation)
      → Keeps (within t now) everything (assert_sync_authority memo user o credential)
  unfolding assert_sync_authority
  assert_sync_authority-reads o = search (keeps, assert_permissions-reads) depth 15

  -- A synchronisation, after the load.
  sync_operation-loaded :
      (db : Db) (o : OperationWithItems)
      → load_operation id (within t now) db ≡ (ok o, db)
      → (assert_sync_authority memo user o.operation credential (within t now) db).1 ≡ db
      → ((e : Error) × (sync_operation wait memo user id credential (within t now) db
            ≡ (err e, db)))
        ⊎ (sync_operation wait memo user id credential (within t now) db ≡ (
            ((if is_pending o.operation.status then process wait o else pure o) >>= λ settled.
            pure (to_sync_result settled.operation))
              (within t now)
              db))
  unfolding sync_operation
  sync_operation-loaded db o loaded same =
      elim (Result-cases
        (assert_sync_authority memo user o.operation credential (within t now) db).0) [
          | inl (memo', allowed) ↦ inr (ground arith)
          | inr (e, refused) ↦ inl (e, ground arith)
        ]

  sync_operation-unknown :
      (db : Db)
      → load_operation id (within t now) db ≡ (err (not_found operation_not_found), db)
      → sync_operation wait memo user id credential (within t now) db
        ≡ (err (not_found operation_not_found), db)
  unfolding sync_operation
  sync_operation-unknown db e = ground arith

  -- What an action on the operation tells of it.
  Settled-Synced :
      (m : Action OperationWithItems) (db : Db)
      → Settled t id (m (within t now) db)
      → Synced t id ((m >>= λ settled. pure (to_sync_result settled.operation)) (within t now) db)
  Settled-Synced m db settled = elim (Result-cases (m (within t now) db).0) [
    | inl (o, e) ↦
        let (found, done) = rw e at settled in rw (e, ◌>>=◌) (o.operation, found, done, refl)
    | inr (x, e) ↦ rw (e, ◌>>=◌) tt
  ]

  loaded-Settled :
      (db : Db) (o : OperationWithItems)
      → operation_in t id db ≡ some o.operation
      → o.operation.id ≡ id
      → Settled t id
          ((if is_pending o.operation.status then process wait o else pure o) (within t now) db)
  loaded-Settled db o found same = elim (Bool-cases (is_pending o.operation.status)) [
    | inl pending ↦ rw pending (
        subst (λ k. Settled t k (process wait o (within t now) db)) same
          ((process-Settles t now wait o).apply db))
    | inr done ↦ rw done (found, done)
  ]

  -- A synchronisation that returns has settled its operation for good: the result is what the
  -- database then says of the operation, and the operation is not pending. This holds whatever
  -- other requests do to the database while it waits for one of them.
  pub sync_operation-Synced :
      (db : Db) → Synced t id (sync_operation wait memo user id credential (within t now) db)
  sync_operation-Synced db = elim (load_operation-cases t now id db) [
    | inr (e, unknown) ↦ subst (Synced t id) (sym (sync_operation-unknown db e)) tt
    | inl (o, e, found, same) ↦
        elim (sync_operation-loaded db o e ((assert_sync_authority-reads o.operation).apply db)) [
          | inl (x, failed) ↦ subst (Synced t id) (sym failed) tt
          | inr out ↦ subst (Synced t id) (sym out) (
              Settled-Synced (if is_pending o.operation.status then process wait o else pure o) db
                (loaded-Settled db o found same))
        ]
  ]

  -- A settled operation is never executed again.
  sync_operation-Replays :
      (db : Db) (o : PosOperation)
      → operation_in t id db ≡ some o
      → is_pending o.status ≡ false
      → Replays
          (to_sync_result o)
          db
          (sync_operation wait memo user id credential (within t now) db)
  sync_operation-Replays db o found done = elim (load_operation-cases t now id db) [
    | inr (e, unknown) ↦
        subst (Replays (to_sync_result o) db) (sym (sync_operation-unknown db e)) refl
    | inl (loaded, e, here, same) ↦
        let one : loaded.operation ≡ o = ground arith in
        elim (sync_operation-loaded db loaded e
          ((assert_sync_authority-reads loaded.operation).apply db)) [
            | inl (x, failed) ↦ subst (Replays (to_sync_result o) db) (sym failed) refl
            | inr out ↦
                let res : sync_operation wait memo user id credential (within t now) db
                    ≡ (ok (to_sync_result o), db) =
                  ground arith in
                subst (Replays (to_sync_result o) db) (sym res) (refl, refl)
          ]
  ]

module _ ⦃prisma : Prisma⦄ ⦃crypto : Crypto⦄ (t : Key) (now later : Instant) (id : Key)
    (wait wait' : Wait) (memo memo' : Memo) (user user' : Key)
    (credential credential' : Option Text) where
  -- After a synchronisation that returned, any later one of the same operation, by whatever user
  -- and with whatever credential, changes nothing, and if it returns it returns the same result: an
  -- offline sale is executed or rejected once.
  pub sync_operation-once :
      (db : Db) {r : SyncResult} {db' : Db}
      → sync_operation wait memo user id credential (within t now) db ≡ (ok r, db')
      → Replays r db' (sync_operation wait' memo' user' id credential' (within t later) db')
  sync_operation-once db {r} {db'} returned =
      let (o, found, done, says) =
        subst (Synced t id) returned
          (sync_operation-Synced t now id wait memo user credential db) in
      subst
        (λ s. Replays s db' (sync_operation wait' memo' user' id credential' (within t later) db'))
        (sym says)
        (sync_operation-Replays t later id wait' memo' user' credential' db' o found done)
