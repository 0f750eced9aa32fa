-- ===== src/Api/Isolation/Offline.antt =====
-- The isolation of the requests to the offline sales and of their reports.
use business_platform.Prelude.{List, Option, [], none, refl, some, suc, zero, ℕ, ◌∷◌}
use business_platform.Prisma.{Prisma, p2002, client_uuid, other_columns}
use business_platform.Schema.{Key, Instant, Text, PosOperation, PosSession, ResultCode}
use business_platform.Platform.{
  Error, database, conflict, insufficient_stock, within, inventory_model,
}
use business_platform.Platform.Frames.{
  Keeps-if, Keeps-if_found, Keeps-find_first, Keeps-pure, Keeps-bind, Keeps, Keeps-throw,
  Keeps-then,
}
use business_platform.Platform.Isolation.{foreign, isolation}
use business_platform.Order.{Quantities}
use business_platform.Rbac.Permission.{
  Memo, PermissionRequirement, assert_permissions, get_permissions, load_snapshot, role_snapshot,
  granted_keys,
}
use business_platform.Pos.Device.{Crypto}
use business_platform.Pos.Operation.{
  OfflineSaleIntentItemDto, OperationWithItems, RecordOfflineSaleIntentDto, with_items, create_item,
  create_items, create_operation, create_intent, record_handler, record_offline_sale_intent,
  load_operation, get_operation, with_all_items, list_device_operations,
}
use business_platform.Pos.Validation.{short_of, check_stock, validate_lines, validate_intent}
use business_platform.Pos.Sync.{
  pause, alone, persist_rejection, release_claim, poll, await_from, await_concurrent_result, claim,
  finalize, execute_handler, execute, claim_and_execute, process, assert_sync_authority,
  sync_operation,
}
use business_platform.Pos.Feed.{pull_feed}
use business_platform.Pos.Reconciliation.{get_device_reconciliation, get_session_reconciliation}
use business_platform.Api.Calls.{sync_alone}
use business_platform.Api.Isolation.Sales.{create_sale-isolated}

module _ ⦃prisma : Prisma⦄ (t : Key) (now : Instant) where
  with_items-isolated : (o : PosOperation) → Keeps (within t now) (foreign t) (with_items o)
  unfolding with_items
  with_items-isolated o = search isolation

  create_item-isolated :
      (tenant id : Key) (it : OfflineSaleIntentItemDto)
      → Keeps (within t now) (foreign t) (create_item tenant id it)
  unfolding create_item
  create_item-isolated tenant id it = search isolation

  create_items-isolated :
      (tenant id : Key) (its : List OfflineSaleIntentItemDto)
      → Keeps (within t now) (foreign t) (create_items tenant id its)
  unfolding create_items
  create_items-isolated tenant id [] = search isolation
  create_items-isolated tenant id (it ∷ its) =
      Keeps-then (create_item-isolated tenant id it) (create_items-isolated tenant id its)

  record_handler-isolated :
      (s : PosSession) (dto : RecordOfflineSaleIntentDto) (e : Error)
      → Keeps (within t now) (foreign t) (record_handler s dto e)
  unfolding record_handler
  record_handler-isolated s dto (database (p2002 client_uuid)) =
      search (isolation, with_items-isolated)
  record_handler-isolated s dto (database (p2002 other_columns)) = search isolation
  record_handler-isolated s dto e = Keeps-throw e

  pub record_offline_sale_intent-isolated :
      (user : Key) (dto : RecordOfflineSaleIntentDto)
      → Keeps (within t now) (foreign t) (record_offline_sale_intent user dto)
  unfolding record_offline_sale_intent create_intent create_operation
  record_offline_sale_intent-isolated user dto =
      search (isolation, with_items-isolated, create_items-isolated, record_handler-isolated) depth
        20

  load_operation-isolated : (id : Key) → Keeps (within t now) (foreign t) (load_operation id)
  unfolding load_operation
  load_operation-isolated id = search (isolation, with_items-isolated)

  pub get_operation-isolated : (id : Key) → Keeps (within t now) (foreign t) (get_operation id)
  unfolding get_operation
  get_operation-isolated id = search (isolation, load_operation-isolated)

  with_all_items-isolated :
      (os : List PosOperation) → Keeps (within t now) (foreign t) (with_all_items os)
  unfolding with_all_items
  with_all_items-isolated [] = search isolation
  with_all_items-isolated (o ∷ os) =
      Keeps-bind (with_items-isolated o)
        λ a. Keeps-bind (with_all_items-isolated os) λ b. Keeps-pure (a ∷ b)

  pub list_device_operations-isolated :
      (id : Key) → Keeps (within t now) (foreign t) (list_device_operations id)
  unfolding list_device_operations
  list_device_operations-isolated id = search (isolation, with_all_items-isolated) depth 12

  pub pull_feed-isolated : (since : ℕ) → Keeps (within t now) (foreign t) (pull_feed since)
  unfolding pull_feed
  pull_feed-isolated since = search isolation

  pub get_device_reconciliation-isolated :
      (id : Key) → Keeps (within t now) (foreign t) (get_device_reconciliation id)
  unfolding get_device_reconciliation
  get_device_reconciliation-isolated id = search isolation depth 12

  pub get_session_reconciliation-isolated :
      (id : Key) → Keeps (within t now) (foreign t) (get_session_reconciliation id)
  unfolding get_session_reconciliation
  get_session_reconciliation-isolated id = search isolation depth 12

  assert_permissions-isolated :
      (memo : Memo) (user : Key) (r : PermissionRequirement)
      → Keeps (within t now) (foreign t) (assert_permissions memo user r)
  unfolding assert_permissions get_permissions load_snapshot role_snapshot granted_keys
  assert_permissions-isolated memo user r = search isolation depth 25

  check_stock-isolated :
      (store : Key) (m : Quantities) → Keeps (within t now) (foreign t) (check_stock store m)
  unfolding check_stock
  check_stock-isolated store [] = search isolation
  check_stock-isolated store ((v, q) ∷ m) =
      Keeps-bind (Keeps-find_first inventory_model _)
        λ row. Keeps-if (short_of q row) (Keeps-pure _) (check_stock-isolated store m)

  validate_intent-isolated :
      (o : OperationWithItems) → Keeps (within t now) (foreign t) (validate_intent o)
  unfolding validate_intent validate_lines
  validate_intent-isolated o = search (isolation, check_stock-isolated) depth 15

  persist_rejection-isolated :
      (id : Key) (code : ResultCode) → Keeps (within t now) (foreign t) (persist_rejection id code)
  unfolding persist_rejection
  persist_rejection-isolated id code = search (isolation, load_operation-isolated)

  execute_handler-isolated :
      (id : Key) (e : Error) → Keeps (within t now) (foreign t) (execute_handler id e)
  unfolding execute_handler
  execute_handler-isolated id (conflict insufficient_stock) = search persist_rejection-isolated
  execute_handler-isolated id e = Keeps-throw e

  execute-isolated : (o : OperationWithItems) → Keeps (within t now) (foreign t) (execute o)
  unfolding execute finalize
  execute-isolated o =
      search (isolation, create_sale-isolated, load_operation-isolated, execute_handler-isolated)
        depth 12

  Keeps-pause : (clock : Instant) (i : ℕ) → Keeps (within t now) (foreign t) (pause (alone clock) i)
  Keeps-pause clock i = record { apply = λ db. refl }

  poll-isolated : (id : Key) → Keeps (within t now) (foreign t) (poll id)
  unfolding poll
  poll-isolated id = search (isolation, with_items-isolated)

  release_claim-isolated : (id : Key) → Keeps (within t now) (foreign t) (release_claim id)
  unfolding release_claim
  release_claim-isolated id = search isolation

  await_from-isolated :
      (clock : Instant) (id : Key) (left i : ℕ)
      → Keeps (within t now) (foreign t) (await_from (alone clock) id left i)
  unfolding await_from
  await_from-isolated clock id zero i = Keeps-pure none
  await_from-isolated clock id (suc left) i =
      let rest = await_from-isolated clock id left (suc i) in
      let paused = Keeps-then (Keeps-pause clock i) rest in
      Keeps-bind (poll-isolated id) λ found. Keeps-if_found found paused λ o.
        Keeps-if _ (Keeps-pure (some o))
          (Keeps-if _ (Keeps-then (release_claim-isolated id) (Keeps-pure none)) paused)

  process-isolated :
      (clock : Instant) (o : OperationWithItems)
      → Keeps (within t now) (foreign t) (process (alone clock) o)
  unfolding process claim_and_execute claim await_concurrent_result
  process-isolated clock o =
      search
        (
          isolation, validate_intent-isolated, persist_rejection-isolated, execute-isolated,
          await_from-isolated,
        )
        depth 20

module _ ⦃prisma : Prisma⦄ ⦃crypto : Crypto⦄ (t : Key) (now : Instant) where
  assert_sync_authority-isolated :
      (memo : Memo) (user : Key) (o : PosOperation) (credential : Option Text)
      → Keeps (within t now) (foreign t) (assert_sync_authority memo user o credential)
  unfolding assert_sync_authority
  assert_sync_authority-isolated memo user o credential =
      search (isolation, assert_permissions-isolated) depth 15

  pub sync_alone-isolated :
      (user id : Key) (credential : Option Text)
      → Keeps (within t now) (foreign t) (sync_alone user id credential)
  unfolding sync_alone sync_operation
  sync_alone-isolated user id credential =
      search (isolation, load_operation-isolated, assert_sync_authority-isolated, process-isolated)
        depth 20
