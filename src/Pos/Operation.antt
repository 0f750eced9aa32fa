-- ===== src/Pos/Operation.antt =====
-- src/pos/pos-operation.service.ts: offline sales as a device recorded them, one row for each, with
-- their lines.
use business_platform.Prelude.{
  ℕ, List, Option, [], ◌∷◌, if◌then◌else◌, map, none, leb, ◌&&◌, ◌==◌, not,
}
use business_platform.Prisma.{Prisma, p2002, p2025, client_uuid, other_columns}
use business_platform.Schema.{
  Key, Instant, Currency, PosOperation, PosOperationItem, PosOperationType, PosOperationStatus,
  ResultCode, PosSession,
}
use business_platform.Platform.{
  Error, Action, pure, throw, or_throw, throw_if, if_found, catch, transaction, database, not_found,
  conflict, session_not_found, operation_not_found, device_not_found, sequence_used, ◌>>=◌, ◌>>◌,
  require_tenant_id, current_time, find_unique, find_first, find_many_by, find_related, create,
  fresh_id, pos_session_model, pos_device_model, pos_operation_model, pos_operation_item_model,
}

pub record OfflineSaleIntentItemDto : Type 0 where
  pub variant_id : Key
  pub quantity : ℕ
  pub currency : Currency
  pub observed_unit_amount_minor : ℕ

pub record RecordOfflineSaleIntentDto : Type 0 where
  pub session_id : Key
  pub client_uuid : Key
  pub seq : ℕ
  pub items : List OfflineSaleIntentItemDto
  pub customer_id : Option Key

-- `PosOperation & { items: PosOperationItem[] }`
pub record OperationWithItems : Type 0 where
  pub operation : PosOperation
  pub items : List PosOperationItem

pub record OfflineIntentItemSummary : Type 0 where
  pub id : Key
  pub variant_id : Key
  pub quantity : ℕ
  pub currency : Currency
  pub observed_unit_amount_minor : ℕ

pub record OfflineOperationSummary : Type 0 where
  pub id : Key
  pub tenant_id : Key
  pub device_id : Key
  pub session_id : Key
  pub store_id : Key
  pub user_id : Key
  pub client_uuid : Key
  pub seq : ℕ
  pub operation_type : PosOperationType
  pub status : PosOperationStatus
  pub result_code : Option ResultCode
  pub result_order_id : Option Key
  pub result_payment_id : Option Key
  pub customer_id : Option Key
  pub processed_at : Option Instant
  pub created_at : Instant
  pub items : List OfflineIntentItemSummary

abbrev pub item_summary : PosOperationItem → OfflineIntentItemSummary
item_summary it = record {
  id = it.id;
  variant_id = it.variant_id;
  quantity = it.quantity;
  currency = it.currency;
  observed_unit_amount_minor = it.observed_unit_amount_minor;
}

abbrev pub insert_item :
    OfflineIntentItemSummary → List OfflineIntentItemSummary → List OfflineIntentItemSummary
insert_item x [] = x ∷ []
insert_item x (y ∷ ys) =
    let rest = insert_item x ys in if leb x.id y.id then x ∷ y ∷ ys else y ∷ rest

-- `.sort((a, b) => a.id.localeCompare(b.id))`
abbrev pub sort_items : List OfflineIntentItemSummary → List OfflineIntentItemSummary
sort_items [] = []
sort_items (x ∷ xs) = insert_item x (sort_items xs)

unfoldable pub to_summary : OperationWithItems → OfflineOperationSummary
to_summary o = record {
  id = o.operation.id;
  tenant_id = o.operation.tenant_id;
  device_id = o.operation.device_id;
  session_id = o.operation.session_id;
  store_id = o.operation.store_id;
  user_id = o.operation.user_id;
  client_uuid = o.operation.client_uuid;
  seq = o.operation.seq;
  operation_type = o.operation.operation_type;
  status = o.operation.status;
  result_code = o.operation.result_code;
  result_order_id = o.operation.result_order_id;
  result_payment_id = o.operation.result_payment_id;
  customer_id = o.operation.customer_id;
  processed_at = o.operation.processed_at;
  created_at = o.operation.created_at;
  items = sort_items (map item_summary o.items);
}

module _ ⦃prisma : Prisma⦄ where
  -- `include: { items: true }`
  unfoldable pub with_items : PosOperation → Action OperationWithItems
  with_items operation = do
    items ← find_related (λ db. db.pos_operation_items) (λ r. r.operation_id == operation.id)
    pure record { operation = operation; items = items }

  unfoldable pub create_item : Key → Key → OfflineSaleIntentItemDto → Action PosOperationItem
  create_item tenant_id operation_id item = do
    id ← fresh_id
    now ← current_time
    create pos_operation_item_model record {
      id = id;
      tenant_id = tenant_id;
      operation_id = operation_id;
      variant_id = item.variant_id;
      quantity = item.quantity;
      currency = item.currency;
      observed_unit_amount_minor = item.observed_unit_amount_minor;
      created_at = now;
      updated_at = now;
    }

  -- The loop over `dto.items`.
  unfoldable pub create_items : Key → Key → List OfflineSaleIntentItemDto → Action (Unit {0})
  create_items tenant_id operation_id [] = pure tt
  create_items tenant_id operation_id (it ∷ its) =
      create_item tenant_id operation_id it >> create_items tenant_id operation_id its

  -- The first write of the transaction.
  unfoldable pub create_operation :
      Key → PosSession → RecordOfflineSaleIntentDto → Action PosOperation
  create_operation tenant_id session dto = do
    id ← fresh_id
    now ← current_time
    create pos_operation_model record {
      id = id;
      tenant_id = tenant_id;
      device_id = session.device_id;
      session_id = session.id;
      store_id = session.store_id;
      user_id = session.user_id;
      client_uuid = dto.client_uuid;
      seq = dto.seq;
      operation_type = PosOperationType.sale_intent;
      status = PosOperationStatus.pending;
      result_code = none;
      result_order_id = none;
      result_payment_id = none;
      customer_id = dto.customer_id;
      processed_at = none;
      created_at = now;
      updated_at = now;
    }

  unfoldable pub create_intent :
      Key → PosSession → RecordOfflineSaleIntentDto → Action OperationWithItems
  create_intent tenant_id session dto = do
    created ← create_operation tenant_id session dto
    create_items tenant_id created.id dto.items
    found ← find_unique pos_operation_model (λ r. r.id == created.id)
    operation ← or_throw found (database p2025)
    with_items operation

  -- The handler: the row that holds the identifier of the client, or a conflict of the sequence.
  unfoldable pub record_handler :
      PosSession → RecordOfflineSaleIntentDto → Error → Action OperationWithItems
  record_handler session dto (database (p2002 client_uuid)) = do
    existing ←
        find_first pos_operation_model
          (λ r. r.device_id == session.device_id && r.client_uuid == dto.client_uuid)
    if_found existing (throw (conflict sequence_used)) with_items
  record_handler session dto (database (p2002 other_columns)) = throw (conflict sequence_used)
  record_handler session dto e = throw e

  unfoldable pub record_offline_sale_intent :
      Key → RecordOfflineSaleIntentDto → Action OfflineOperationSummary
  record_offline_sale_intent user_id dto = do
    tenant_id ← require_tenant_id
    found ← find_unique pos_session_model (λ r. r.id == dto.session_id)
    session ← or_throw found (not_found session_not_found)
    throw_if (not (session.user_id == user_id)) (not_found session_not_found)
    operation ←
        catch (transaction (create_intent tenant_id session dto)) (record_handler session dto)
    pure (to_summary operation)

  -- `loadOperation` of pos-sync.service.ts, and the lookup of `getOperation`.
  unfoldable pub load_operation : Key → Action OperationWithItems
  load_operation operation_id = do
    found ← find_unique pos_operation_model (λ r. r.id == operation_id)
    operation ← or_throw found (not_found operation_not_found)
    with_items operation

  unfoldable pub get_operation : Key → Action OfflineOperationSummary
  get_operation operation_id = do
    require_tenant_id
    operation ← load_operation operation_id
    pure (to_summary operation)

  unfoldable pub with_all_items : List PosOperation → Action (List OperationWithItems)
  with_all_items [] = pure []
  with_all_items (o ∷ os) = do
    first_one ← with_items o
    others ← with_all_items os
    pure (first_one ∷ others)

  unfoldable pub list_device_operations : Key → Action (List OfflineOperationSummary)
  list_device_operations device_id = do
    require_tenant_id
    device ← find_unique pos_device_model (λ r. r.id == device_id)
    or_throw device (not_found device_not_found)
    operations ← find_many_by pos_operation_model (λ r. r.seq) (λ r. r.device_id == device_id)
    all ← with_all_items operations
    pure (map to_summary all)
