-- ===== src/Pos/Recording.antt =====
-- That a device may push an offline sale again: the first row is found, and nothing changes.
use business_platform.Platform.Unique.{some_row-true, some_row-count}
use business_platform.Pos.Operation.{
  OperationWithItems, RecordOfflineSaleIntentDto, to_summary, with_items, create_operation,
  create_intent, record_handler, record_offline_sale_intent,
}
use business_platform.Platform.Facts.{owned, find_unique_eq, find_first_cases, create_cases}
use business_platform.Platform.{
  ok, err, within, database, catch, transaction, fresh_id, find_related, pos_operation_model,
  pos_session_model,
}
use business_platform.Prelude.{
  Bool, In, List, [], ap, arith, count, count_pos, false, first, inl, inr, none, refl, some, subst,
  suc, sym, true, ℕ, ◌&&◌, ◌<◌, ◌==◌, ◌∙◌, ◌∷◌, ◌≡◌, ◌≤◌,
}
use business_platform.Prisma.{p2002, client_uuid, Prisma}
use business_platform.Schema.{
  Key, PosOperation, Db, Instant, PosSession, PosOperationItem, PosOperationStatus,
  PosOperationType,
}
use business_platform.Platform.Constraints.{
  pos_operation_check, same_client_uuid, some_row, clash, int4_max,
}

-- The rows of one device and client identifier are one row.
same_client_uuid-same :
    (rs : List PosOperation) (a b : PosOperation)
    → clash same_client_uuid rs ≡ false
    → In a rs
    → In b rs
    → same_client_uuid a b ≡ true
    → a ≡ b
same_client_uuid-same [] a b h i j e = elim i [ ]
same_client_uuid-same (x ∷ xs) a b h (inl k) (inl l) e = k ∙ sym l
same_client_uuid-same (x ∷ xs) a b h (inl k) (inr j) e =
    ground (arith, ap (λ y. same_client_uuid y b) k, some_row-true (same_client_uuid x) xs b j)
same_client_uuid-same (x ∷ xs) a b h (inr i) (inl l) e =
    ground (arith, ap (λ y. same_client_uuid a y) l, some_row-true (same_client_uuid x) xs a i)
same_client_uuid-same (x ∷ xs) a b h (inr i) (inr j) e =
    ground (arith, same_client_uuid-same xs a b)

clash_uuid-free :
    (rs : List PosOperation) → pos_operation_check rs ≡ none → clash same_client_uuid rs ≡ false
unfolding pos_operation_check
clash_uuid-free rs h = ground arith

-- A new row of a known device and client identifier is refused by that index.
check-repeats :
    (o : PosOperation) (rs : List PosOperation)
    → pos_operation_check rs ≡ none
    → 0 < o.seq
    → o.seq ≤ int4_max
    → some_row (λ r. o.id == r.id) rs ≡ false
    → some_row (same_client_uuid o) rs ≡ true
    → pos_operation_check (o ∷ rs) ≡ some (p2002 client_uuid)
unfolding pos_operation_check
check-repeats o rs h p q f g = ground arith

-- The identifiers to come name no operation yet.
abbrev pub HasFreshIds : ⦃prisma : Prisma⦄ → Db → Type 0
HasFreshIds ⦃prisma⦄ db =
    (i : ℕ) → db.generated ≤ i → count (λ r. r.id == prisma.new_id i) db.pos_operations ≡ 0

-- The operation with its lines, as the database has them.
abbrev pub stored : ⦃prisma : Prisma⦄ → PosOperation → Db → OperationWithItems
stored ⦃prisma⦄ o db = record {
  operation = o;
  items = prisma.find_many PosOperationItem (λ r. r.operation_id == o.id) db.pos_operation_items;
}

module _ ⦃prisma : Prisma⦄ (t : Key) (now : Instant) (session : PosSession)
    (dto : RecordOfflineSaleIntentDto) where
  -- The row that a push would create.
  abbrev pushed : Db → PosOperation
  pushed db = record {
    id = prisma.new_id db.generated;
    tenant_id = t;
    device_id = session.device_id;
    session_id = session.id;
    store_id = session.store_id;
    user_id = session.user_id;
    client_uuid = dto.client_uuid;
    seq = dto.seq;
    operation_type = PosOperationType.sale_intent;
    status = PosOperationStatus.pending;
    result_code = none;
    result_order_id = none;
    result_payment_id = none;
    customer_id = dto.customer_id;
    processed_at = none;
    created_at = now;
    updated_at = now;
  }

  -- The row that a push finds.
  abbrev pub of_client : PosOperation → Bool
  of_client =
      owned pos_operation_model t
        λ r. r.device_id == session.device_id && r.client_uuid == dto.client_uuid

  module _ (db : Db) (o : PosOperation) (valid : pos_operation_check db.pos_operations ≡ none)
      (fresh : HasFreshIds db) (positive : 0 < dto.seq) (small : dto.seq ≤ int4_max)
      (here : In o db.pos_operations) (same : of_client o ≡ true) where
    refused : pos_operation_check (pushed db ∷ db.pos_operations) ≡ some (p2002 client_uuid)
    refused =
        check-repeats (pushed db) db.pos_operations valid positive small
          (some_row-count (λ (r : PosOperation). r.id) (prisma.new_id db.generated)
            db.pos_operations (fresh db.generated (omega arith)))
          (some_row-true (same_client_uuid (pushed db)) db.pos_operations o here (ground arith))

    create_intent-refused :
        (create_intent t session dto (within t now) db).0 ≡ err (database (p2002 client_uuid))
    unfolding create_intent create_operation fresh_id
    create_intent-refused =
        let later = record db { generated = suc db.generated } in
        ground (arith, refused, create_cases pos_operation_model refl t now later (pushed db))

    record_handler-finds :
        record_handler session dto (database (p2002 client_uuid)) (within t now) db
        ≡ (ok (stored o db), db)
    unfolding record_handler with_items find_related
    record_handler-finds =
        elim (find_first_cases pos_operation_model refl t now db
          (λ r. r.device_id == session.device_id && r.client_uuid == dto.client_uuid)) [
            | inl (e, z) ↦ ground (arith, count_pos of_client db.pos_operations o here same)
            | inr (r, e, i, h) ↦
                let one =
                  same_client_uuid-same db.pos_operations r o
                    (clash_uuid-free db.pos_operations valid) i here (ground arith) in
                subst
                  (λ x.
                    record_handler session dto (database (p2002 client_uuid)) (within t now) db
                    ≡ (ok (stored x db), db))
                  one (ground arith)
          ]

    push-finds :
        catch
          (transaction (create_intent t session dto))
          (record_handler session dto)
          (within t now)
          db
        ≡ (ok (stored o db), db)
    push-finds = ground (arith, create_intent-refused, record_handler-finds)

  -- A push of an offline sale whose device and client identifier the table holds, by the cashier of
  -- the session, with a sequence number that fits its column, returns the row that is there with its
  -- lines, whatever lines or number it brings, and changes nothing. The identifiers to come must be
  -- unused, and the constraints must hold of the table.
  pub record_offline_sale_intent-again :
      (db : Db) (o : PosOperation)
      → first (owned pos_session_model t λ r. r.id == dto.session_id) db.pos_sessions ≡ some session
      → pos_operation_check db.pos_operations ≡ none
      → HasFreshIds db
      → 0 < dto.seq
      → dto.seq ≤ int4_max
      → In o db.pos_operations
      → of_client o ≡ true
      → record_offline_sale_intent session.user_id dto (within t now) db
        ≡ (ok (to_summary (stored o db)), db)
  unfolding record_offline_sale_intent
  record_offline_sale_intent-again db o found valid fresh positive small here same = ground (
    arith,
    find_unique_eq pos_session_model refl t now db λ (r : PosSession). r.id == dto.session_id,
    push-finds db o valid fresh positive small here same,
  )
