-- ===== src/Tests/Offline.antt =====
-- The theorems on offline sales, at the shop.
use business_platform.Prelude.{refl, arith, inl, ◌≡◌, some, none, [], ◌∷◌}
use business_platform.Schema.{Db, PosSessionStatus, PosOperationStatus, ResultCode}
use business_platform.Platform.{
  ok, within, find_unique, find_many, find_first, update_many, find_related,
}
use business_platform.Platform.Constraints.{pos_operation_check}
use business_platform.Order.Creating.{all_active}
use business_platform.Order.Defs.{aggregate_from, aggregate_items}
use business_platform.Rbac.Catalog.{code}
use business_platform.Rbac.Permission.{
  satisfies, granted_keys, role_snapshot, load_snapshot, get_permissions, assert_permissions,
}
use business_platform.Pos.Device.{verify_credential}
use business_platform.Pos.Operation.{
  OperationWithItems, RecordOfflineSaleIntentDto, with_items, load_operation, to_summary,
  record_offline_sale_intent,
}
use business_platform.Pos.Recording.{HasFreshIds, stored, record_offline_sale_intent-again}
use business_platform.Pos.Validation.{check_lines, check_stock, validate_lines, validate_intent}
use business_platform.Pos.Executable.{IsExecutable, validate_intent-IsExecutable}
use business_platform.Pos.Sync.{
  SyncResult, alone, process, persist_rejection, assert_sync_authority, sync_operation,
}
use business_platform.Pos.Once.{Replays, Synced, sync_operation-Synced, sync_operation-once}
use business_platform.Tests.Memory.{in_memory, numbers}
use business_platform.Tests.Shop.{offline_sale, shop}

shop-check : pos_operation_check shop.pos_operations ≡ none
unfolding pos_operation_check
shop-check = refl

shop-HasFreshIds : HasFreshIds shop
shop-HasFreshIds i h = ground arith

-- The sale again, with another number and no lines.
abbrev push : RecordOfflineSaleIntentDto
push = record { session_id = 72; client_uuid = 4001; seq = 9; items = []; customer_id = none }

record_offline_sale_intent-again_example :
    record_offline_sale_intent 3 push (within 7 200) shop
    ≡ (ok (to_summary (stored offline_sale shop)), shop)
record_offline_sale_intent-again_example =
    record_offline_sale_intent-again 7 200
      (record {
        id = 72;
        tenant_id = 7;
        device_id = 71;
        store_id = 1;
        user_id = 3;
        status = PosSessionStatus.opened;
        opened_at = 100;
        closed_at = none;
        created_at = 100;
        updated_at = 100;
      })
      push shop offline_sale refl shop-check shop-HasFreshIds (omega arith) (omega arith) (inl refl)
      refl

-- The sale at the server's price.
abbrev priced_sale : OperationWithItems
priced_sale = record {
  operation = offline_sale;
  items =
      record {
        id = 74;
        tenant_id = 7;
        operation_id = 73;
        variant_id = 21;
        quantity = 2;
        currency = 840;
        observed_unit_amount_minor = 250;
        created_at = 150;
        updated_at = 150;
      }
      ∷ [];
}

priced_sale-passes : (validate_intent priced_sale (within 7 200) shop).0 ≡ ok none
unfolding validate_intent validate_lines check_lines check_stock aggregate_items aggregate_from
    all_active find_many find_first
priced_sale-passes = refl

validate_intent-IsExecutable_example : IsExecutable 7 priced_sale shop
validate_intent-IsExecutable_example =
    validate_intent-IsExecutable 7 200 priced_sale shop priced_sale-passes

sync_operation-Synced_example :
    Synced 7 73 (sync_operation (alone 200) (some []) 3 73 (some 600) (within 7 200) shop)
sync_operation-Synced_example =
    sync_operation-Synced 7 200 73 (alone 200) (some []) 3 (some 600) shop

-- The sale is rejected, since its price is not the server's.
abbrev rejection : SyncResult
rejection = record {
  operation_id = 73;
  client_uuid = 4001;
  seq = 1;
  status = PosOperationStatus.rejected;
  result_code = some ResultCode.price_changed;
  order_id = none;
  payment_id = none;
}

abbrev synced : Db
synced = (sync_operation (alone 200) (some []) 3 73 (some 600) (within 7 200) shop).1

shop-rejects :
    sync_operation (alone 200) (some []) 3 73 (some 600) (within 7 200) shop
    ≡ (ok rejection, synced)
unfolding sync_operation load_operation with_items find_related find_unique assert_sync_authority
    verify_credential assert_permissions get_permissions load_snapshot role_snapshot granted_keys
    satisfies code process validate_intent validate_lines check_lines all_active find_many
    persist_rejection update_many pos_operation_check
shop-rejects = refl

sync_operation-once_example :
    Replays rejection synced
      (sync_operation (alone 900) (some []) 3 73 (some 600) (within 7 900) synced)
sync_operation-once_example =
    sync_operation-once 7 200 900 73 (alone 200) (alone 900) (some []) (some []) 3 3 (some 600)
      (some 600) shop shop-rejects
