-- ===== src/Pos/Settling.antt =====
-- The parts of a synchronisation, each of which returns only an operation that is settled.
use business_platform.Pos.Sale.{PosSaleSummary, create_sale}
use business_platform.Prelude.{
  Bool, List, Option, [], ◌∷◌, first, if◌then◌else◌, none, some, set_where, true, false, ◌&&◌, ◌==◌,
  ◌≡◌, refl, arith, inl, inr, ap, ◌∙◌, zero, suc, ℕ, Option-cases, ◌⊎◌, Bool-cases, sym, subst,
}
use business_platform.Prisma.{Prisma}
use business_platform.Schema.{Db, Key, Instant, PosOperation, ResultCode, PosOperationItem}
use business_platform.Platform.{
  Error, Result, ok, err, within, Action, throw, if_found, catch, ◌>>=◌, not_found,
  operation_not_found, pos_operation_model, find_related, Result-cases, Outcome-cases, update_many,
  ◌>>◌, conflict, insufficient_stock,
}
use business_platform.Platform.Facts.{owned, owned_values, find_unique_eq, update_many_cases}
use business_platform.Pos.Operation.{OperationWithItems, load_operation, with_items}
use business_platform.Pos.Sync.{
  is_pending, persist_rejection, finalize, execute_handler, execute, sale_payload, sync_options,
  poll, await_from, Wait, release_claim, is_stale,
}

-- The operation of tenant `t` with the identifier `id`.
abbrev pub operation_in : Key → Key → Db → Option PosOperation
operation_in t id db = first (λ r. r.id == id && r.tenant_id == t) db.pos_operations

-- A result is an operation that stands in the database and is not pending any more.
abbrev pub Settled : Key → Key → Result OperationWithItems × Db → Type 0
Settled t id (err e, db') = Unit
Settled t id (ok o, db') =
    (operation_in t id db' ≡ some o.operation) × (is_pending o.operation.status ≡ false)

module _ ⦃prisma : Prisma⦄ (t : Key) (now : Instant) (id : Key) where
  -- Whenever the action returns, its result is settled.
  pub record Settles (m : Action OperationWithItems) : Type 0 where
    pub apply : (db : Db) → Settled t id (m (within t now) db)

  pub Settles-bind :
      {A : Type 0} (m : Action A) {f : A → Action OperationWithItems}
      → ((a : A) → Settles (f a))
      → Settles (m >>= f)
  Settles-bind m {f} h = record {
    apply = λ db. elim (Result-cases (m (within t now) db).0) [
      | inl (a, e) ↦ rw (e, ◌>>=◌) ((h a).apply (m (within t now) db).1)
      | inr (x, e) ↦ rw (e, ◌>>=◌) tt
    ];
  }

  pub Settles-catch :
      {m : Action OperationWithItems} {h : Error → Action OperationWithItems}
      → Settles m
      → ((e : Error) → Settles (h e))
      → Settles (catch m h)
  Settles-catch {m} {h} k l = record {
    apply = λ db. elim (Result-cases (m (within t now) db).0) [
      | inl (a, e) ↦ let settled = k.apply db in rw (e, catch) (rw e at settled)
      | inr (x, e) ↦ rw (e, catch) ((l x).apply (m (within t now) db).1)
    ];
  }

  pub Settles-throw : (e : Error) → Settles (throw e)
  Settles-throw e = record { apply = λ db. tt }

  pub Settles-if :
      {m n : Action OperationWithItems} (b : Bool)
      → Settles m
      → Settles n
      → Settles (if b then m else n)
  Settles-if true k l = k
  Settles-if false k l = l

  pub Settles-if_found :
      {A : Type 0} {n : Action OperationWithItems} {f : A → Action OperationWithItems}
      (o : Option A)
      → Settles n
      → ((a : A) → Settles (f a))
      → Settles (if_found o n f)
  Settles-if_found none k l = k
  Settles-if_found (some a) k l = l a

  abbrev pub operation_row : PosOperation → Bool
  operation_row = owned pos_operation_model t λ r. r.id == id

  abbrev pending_row : PosOperation → Bool
  pending_row = owned pos_operation_model t λ r. r.id == id && is_pending r.status

  -- A load returns the operation that stands in the database, or nothing.
  abbrev pub Loads : Db → Result OperationWithItems × Db → Type 0
  Loads db (ok o, db') = (operation_in t id db ≡ some o.operation) × (db' ≡ db)
  Loads db (err e, db') = (e ≡ not_found operation_not_found) × (db' ≡ db)

  pub load_operation-Loads : (db : Db) → Loads db (load_operation id (within t now) db)
  unfolding load_operation with_items find_related
  load_operation-Loads db =
      ground
        (arith, find_unique_eq pos_operation_model refl t now db λ (r : PosOperation). r.id == id)

  -- The guarded update leaves the operation settled, if it sets a status that is.
  settled-first :
      (f : PosOperation → PosOperation) (rs : List PosOperation) (o : PosOperation)
      → ((r : PosOperation) → is_pending (f r).status ≡ false)
      → first operation_row (set_where pending_row (owned_values pos_operation_model t now f) rs)
        ≡ some o
      → is_pending o.status ≡ false
  settled-first f [] o h e = ground arith
  settled-first f (x ∷ rs) o h e = ground (arith, h x, settled-first f rs o h)

  Loads-Settled :
      (db : Db) (out : Result OperationWithItems × Db)
      → Loads db out
      → ((o : PosOperation) → operation_in t id db ≡ some o → is_pending o.status ≡ false)
      → Settled t id out
  Loads-Settled db (ok o, db') (found, same) h =
      (ap (operation_in t id) same ∙ found, h o.operation found)
  Loads-Settled db (err e, db') loads h = tt

  -- A guarded update of the pending operation, and the load after it.
  update_many-Settles :
      (f : PosOperation → PosOperation)
      → ((r : PosOperation) → is_pending (f r).status ≡ false)
      → Settles (
          update_many pos_operation_model (λ r. r.id == id && is_pending r.status) f
          >> load_operation id)
  update_many-Settles f h = record {
    apply = λ db.
        elim (update_many_cases pos_operation_model refl t now db
          (λ r. r.id == id && is_pending r.status) f) [
            | inr (x, e) ↦ rw (e, ◌>>=◌) tt
            | inl (e, k) ↦
                let after : Db = record db {
                  pos_operations =
                      set_where pending_row (owned_values pos_operation_model t now f)
                        db.pos_operations;
                } in
                let out : (update_many pos_operation_model (λ r. r.id == id && is_pending r.status)
                          f
                        >> load_operation id)
                      (within t now) db
                    ≡ load_operation id (within t now) after =
                  ground arith in
                subst (Settled t id) (sym out) (
                  Loads-Settled after (load_operation id (within t now) after)
                    (load_operation-Loads after)
                    (λ o found. settled-first f db.pos_operations o h found))
          ];
  }

  pub persist_rejection-Settles : (code : ResultCode) → Settles (persist_rejection id code)
  unfolding persist_rejection
  persist_rejection-Settles code = update_many-Settles _ λ r. refl

  finalize-Settles : (sale : PosSaleSummary) → Settles (finalize id sale)
  unfolding finalize
  finalize-Settles sale = update_many-Settles _ λ r. refl

  execute_handler-Settles : (e : Error) → Settles (execute_handler id e)
  unfolding execute_handler
  execute_handler-Settles (conflict insufficient_stock) =
      persist_rejection-Settles ResultCode.out_of_stock
  execute_handler-Settles e = Settles-throw e

  -- How a wait ends: with nothing, or with an operation that is settled.
  abbrev pub Awaited : Result (Option OperationWithItems) × Db → Type 0
  Awaited (err e, db') = Unit
  Awaited (ok none, db') = Unit
  Awaited (ok (some o), db') = Settled t id (ok o, db')

  poll-cases :
      (db : Db)
      → (poll id (within t now) db ≡ (ok none, db))
        ⊎ ((o : OperationWithItems) × (poll id (within t now) db ≡ (ok (some o), db))
            × (operation_in t id db ≡ some o.operation))
  unfolding poll with_items find_related
  poll-cases db =
      let law = find_unique_eq pos_operation_model refl t now db λ (r : PosOperation). r.id == id in
      elim (Option-cases (first operation_row db.pos_operations)) [
        | inl e ↦ inl (ground arith)
        | inr (o, e) ↦ inr (
          record {
            operation = o;
            items =
                prisma.find_many PosOperationItem (λ r. r.operation_id == o.id)
                  db.pos_operation_items;
          },
          ground arith,
          e,
        )
      ]

  release_claim-returns :
      (db : Db)
      → ((n : ℕ) × (db' : Db) × (release_claim id (within t now) db ≡ (ok n, db')))
        ⊎ ((e : Error) × (db' : Db) × (release_claim id (within t now) db ≡ (err e, db')))
  release_claim-returns db = Outcome-cases (release_claim id (within t now) db)

  -- Whatever the clock shows and whatever other requests do in the pauses.
  pub await_from-Awaited :
      (wait : Wait) (left i : ℕ) (db : Db) → Awaited (await_from wait id left i (within t now) db)
  unfolding await_from
  await_from-Awaited wait zero i db = tt
  await_from-Awaited wait (suc left) i db =
      let rest = await_from-Awaited wait left (suc i) (wait.meanwhile i db) in
      elim (poll-cases db) [
        | inl e ↦
            let out : await_from wait id (suc left) i (within t now) db
                ≡ await_from wait id left (suc i) (within t now) (wait.meanwhile i db) =
              ground arith in
            subst Awaited (sym out) rest
        | inr (o, e, here) ↦ elim (Bool-cases (is_pending o.operation.status)) [
          | inr done ↦
              let out : await_from wait id (suc left) i (within t now) db ≡ (ok (some o), db) =
                ground arith in
              subst Awaited (sym out) (here, done)
          | inl pending ↦ elim (Bool-cases (is_stale (wait.clock i) o.operation.processed_at)) [
            | inr fresh ↦
                let out : await_from wait id (suc left) i (within t now) db
                    ≡ await_from wait id left (suc i) (within t now) (wait.meanwhile i db) =
                  ground arith in
                subst Awaited (sym out) rest
            | inl stale ↦ elim (release_claim-returns db) [
              | inl (n, db', released) ↦
                  let out : await_from wait id (suc left) i (within t now) db ≡ (ok none, db') =
                    ground arith in
                  subst Awaited (sym out) tt
              | inr (x, db', failed) ↦
                  let out : await_from wait id (suc left) i (within t now) db ≡ (err x, db') =
                    ground arith in
                  subst Awaited (sym out) tt
            ]
          ]
        ]
      ]

module _ ⦃prisma : Prisma⦄ (t : Key) (now : Instant) where
  pub execute-Settles : (o : OperationWithItems) → Settles t now o.operation.id (execute o)
  unfolding execute
  execute-Settles o =
      Settles-catch t now o.operation.id
        (Settles-bind t now o.operation.id
          (create_sale o.operation.user_id (sale_payload o) sync_options)
          (finalize-Settles t now o.operation.id))
        (execute_handler-Settles t now o.operation.id)
