-- ===== src/Pos/Sync.antt =====
-- src/pos/pos-sync.service.ts: the execution of a recorded sale, at most once, through the engine of
-- the online sale.
use business_platform.Prelude.{
  Bool, Option, [], count, false, if◌then◌else◌, ltb, map, none, not, same_option, some, suc, true,
  zero, ℕ, ◌&&◌, ◌*◌, ◌+◌, ◌-◌, ◌==◌, ◌∷◌,
}
use business_platform.Prisma.{Prisma}
use business_platform.Schema.{Db, Key, Instant, Text, PosOperation, PosOperationStatus, ResultCode}
use business_platform.Platform.{
  Error, Action, pure, throw, or_throw, throw_if, if_found, catch, ok, not_found, conflict,
  unauthorized, operation_not_found, device_not_found, device_not_active, invalid_device_credential,
  sync_in_progress, insufficient_stock, ◌>>=◌, ◌>>◌, require_tenant_id, current_time, find_unique,
  update_many, pos_operation_model, pos_device_model,
}
use business_platform.Order.{truthy}
use business_platform.Rbac.Catalog.{PermissionKey}
use business_platform.Rbac.Permission.{Memo, Mode, assert_permissions}
use business_platform.Pos.Session.{is_active}
use business_platform.Pos.Sale.{Method, CreatePosSaleDto, SaleOptions, PosSaleSummary, create_sale}
use business_platform.Pos.Device.{Crypto, verify_credential}
use business_platform.Pos.Validation.{sale_item, validate_intent}
use business_platform.Pos.Operation.{OperationWithItems, load_operation, with_items}

pub record SyncResult : Type 0 where
  pub operation_id : Key
  pub client_uuid : Key
  pub seq : ℕ
  pub status : PosOperationStatus
  pub result_code : Option ResultCode
  pub order_id : Option Key
  pub payment_id : Option Key

abbrev pub to_sync_result : PosOperation → SyncResult
to_sync_result o = record {
  operation_id = o.id;
  client_uuid = o.client_uuid;
  seq = o.seq;
  status = o.status;
  result_code = o.result_code;
  order_id = o.result_order_id;
  payment_id = o.result_payment_id;
}

abbrev pub is_pending : PosOperationStatus → Bool
is_pending PosOperationStatus.pending = true
is_pending _ = false

-- CLAIM_STALENESS_MS and RESULT_POLL_MAX.
abbrev pub claim_staleness : ℕ
claim_staleness = 300000

abbrev pub result_poll_max : ℕ
result_poll_max = 200

-- What goes on while a request waits: the clock in each round, and what other requests do to the
-- database in the pause after it.
pub record Wait : Type 0 where
  pub clock : ℕ → Instant
  pub meanwhile : ℕ → Db → Db

-- RESULT_POLL_MS, and a wait during which no other request runs.
abbrev pub result_poll : ℕ
result_poll = 25

abbrev pub alone : Instant → Wait
alone now = record { clock = λ i. now + result_poll * i; meanwhile = λ i db. db }

module _ ⦃prisma : Prisma⦄ where
  unfoldable pub persist_rejection : Key → ResultCode → Action OperationWithItems
  persist_rejection operation_id code = do
    update_many pos_operation_model (λ r. r.id == operation_id && is_pending r.status)
        (λ r. record r { status = PosOperationStatus.rejected; result_code = some code })
    load_operation operation_id

  -- The reset of a stale claim.
  unfoldable pub release_claim : Key → Action ℕ
  release_claim operation_id =
      update_many pos_operation_model (λ r. r.id == operation_id && is_pending r.status)
        (λ r. record r { processed_at = none })

  abbrev pub is_stale : Instant → Option Instant → Bool
  is_stale now none = false
  is_stale now (some claimed) = ltb claim_staleness (now - claimed)

  -- `setTimeout`
  abbrev pub pause : Wait → ℕ → Action (Unit {0})
  pause wait i c db = (ok tt, wait.meanwhile i db)

  -- The operation of one round, with its lines, if it is there.
  unfoldable pub poll : Key → Action (Option OperationWithItems)
  poll operation_id = do
    found ← find_unique pos_operation_model (λ r. r.id == operation_id)
    if_found found (pure none) λ o. do loaded ← with_items o; pure (some loaded)

  -- The loop, with the rounds that are left and the number of the round.
  unfoldable pub await_from : Wait → Key → ℕ → ℕ → Action (Option OperationWithItems)
  await_from wait operation_id zero i = pure none
  await_from wait operation_id (suc left) i = do
    found ← poll operation_id
    if_found found (pause wait i >> await_from wait operation_id left (suc i)) λ o.
        if not (is_pending o.operation.status)
        then pure (some o)
        else if is_stale (wait.clock i) o.operation.processed_at
        then (do release_claim operation_id; pure none)
        else (pause wait i >> await_from wait operation_id left (suc i))

  unfoldable pub await_concurrent_result : Wait → Key → Action (Option OperationWithItems)
  await_concurrent_result wait operation_id = await_from wait operation_id result_poll_max 0

  unfoldable pub claim : Key → Action ℕ
  claim operation_id = do
    now ← current_time
    update_many pos_operation_model
        (λ r. r.id == operation_id && (is_pending r.status && same_option r.processed_at none))
        (λ r. record r { processed_at = some now })

  -- The payload of the sale, cash only.
  abbrev pub sale_payload : OperationWithItems → CreatePosSaleDto
  sale_payload o = record {
    session_id = o.operation.session_id;
    items = map sale_item o.items;
    method = some Method.cash;
    customer_id = truthy o.operation.customer_id;
    booking_id = none;
  }

  abbrev pub sync_options : SaleOptions
  sync_options = record { allow_closed_session = true; offline = true }

  -- The final update; whether it changed a row or not, the durable row is read again.
  unfoldable pub finalize : Key → PosSaleSummary → Action OperationWithItems
  finalize operation_id sale = do
    update_many pos_operation_model (λ r. r.id == operation_id && is_pending r.status)
        (λ r. record r {
          status = PosOperationStatus.accepted;
          result_code = none;
          result_order_id = some sale.order_id;
          result_payment_id = some sale.payment_id;
        })
    load_operation operation_id

  unfoldable pub execute_handler : Key → Error → Action OperationWithItems
  execute_handler operation_id (conflict insufficient_stock) =
      persist_rejection operation_id ResultCode.out_of_stock
  execute_handler operation_id e = throw e

  -- What the winner of the claim does.
  unfoldable pub execute : OperationWithItems → Action OperationWithItems
  execute o =
      catch
        (do
          sale ← create_sale o.operation.user_id (sale_payload o) sync_options
          finalize o.operation.id sale)
        (execute_handler o.operation.id)

  -- From the claim on.
  unfoldable pub claim_and_execute : Wait → OperationWithItems → Action OperationWithItems
  claim_and_execute wait o = do
    count ← claim o.operation.id
    if count == 0
        then (do
          settled ← await_concurrent_result wait o.operation.id
          or_throw settled (conflict sync_in_progress))
        else execute o

  -- What a pending operation goes through.
  unfoldable pub process : Wait → OperationWithItems → Action OperationWithItems
  process wait o = do
    rejection ← validate_intent o
    if_found rejection (claim_and_execute wait o) λ code. persist_rejection o.operation.id code

-- `if (!deviceCredential)`: no header, or an empty one.
abbrev pub presented : Option Text → Action Text
presented credential = or_throw (truthy credential) (unauthorized invalid_device_credential)

module _ ⦃prisma : Prisma⦄ ⦃crypto : Crypto⦄ where
  unfoldable pub assert_sync_authority : Memo → Key → PosOperation → Option Text → Action Memo
  assert_sync_authority memo user_id operation device_credential = do
    credential ← presented device_credential
    found ← find_unique pos_device_model (λ r. r.id == operation.device_id)
    device ← or_throw found (not_found device_not_found)
    throw_if (not (is_active device.status)) (conflict device_not_active)
    throw_if (not (verify_credential device credential)) (unauthorized invalid_device_credential)
    throw_if (not (operation.user_id == user_id)) (not_found operation_not_found)
    assert_permissions memo user_id
        record { mode = Mode.any; permissions = PermissionKey.pos_create ∷ [] }

  unfoldable pub sync_operation : Wait → Memo → Key → Key → Option Text → Action SyncResult
  sync_operation wait memo user_id operation_id device_credential = do
    require_tenant_id
    o ← load_operation operation_id
    assert_sync_authority memo user_id o.operation device_credential
    settled ← (if is_pending o.operation.status then process wait o else pure o)
    pure (to_sync_result settled.operation)
