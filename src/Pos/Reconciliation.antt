-- ===== src/Pos/Reconciliation.antt =====
-- src/pos/pos-reconciliation.service.ts: reports on what became of the offline sales of a device and
-- of a shift.
use business_platform.Prelude.{List, Option, [], length, ℕ, ◌++◌, ◌==◌, ◌∷◌}
use business_platform.Prisma.{Prisma}
use business_platform.Schema.{Key, Instant, PosOperation, PosOperationStatus, ResultCode}
use business_platform.Platform.{
  Action, pure, or_throw, not_found, device_not_found, session_not_found, ◌>>=◌, ◌>>◌,
  require_tenant_id, find_unique, find_many_by, pos_device_model, pos_session_model,
  pos_operation_model,
}

pub record ReconciledOperation : Type 0 where
  pub operation_id : Key
  pub client_uuid : Key
  pub seq : ℕ
  pub status : PosOperationStatus
  pub result_code : Option ResultCode
  pub order_id : Option Key
  pub payment_id : Option Key
  pub created_at : Instant

pub record Totals : Type 0 where
  pub pending : ℕ
  pub accepted : ℕ
  pub rejected : ℕ

pub record Partition : Type 0 where
  pub rejected : List ReconciledOperation
  pub accepted : List ReconciledOperation
  pub pending : List ReconciledOperation

pub record DeviceReconciliationReport : Type 0 where
  pub device_id : Key
  pub store_id : Key
  pub totals : Totals
  pub operations : Partition

pub record SessionReconciliationReport : Type 0 where
  pub session_id : Key
  pub device_id : Key
  pub store_id : Key
  pub cashier_id : Key
  pub totals : Totals
  pub operations : Partition

abbrev pub project : PosOperation → ReconciledOperation
project op = record {
  operation_id = op.id;
  client_uuid = op.client_uuid;
  seq = op.seq;
  status = op.status;
  result_code = op.result_code;
  order_id = op.result_order_id;
  payment_id = op.result_payment_id;
  created_at = op.created_at;
}

-- `push` on one of the three lists.
abbrev pub file : PosOperation → Partition → Partition
file op p = elim op.status [
  | PosOperationStatus.rejected ↦ record p { rejected = p.rejected ++ project op ∷ [] }
  | PosOperationStatus.accepted ↦ record p { accepted = p.accepted ++ project op ∷ [] }
  | PosOperationStatus.duplicate ↦ record p { accepted = p.accepted ++ project op ∷ [] }
  | PosOperationStatus.pending ↦ record p { pending = p.pending ++ project op ∷ [] }
]

-- The loop, from the lists so far.
unfoldable pub partition_from : Partition → List PosOperation → Partition
partition_from p [] = p
partition_from p (op ∷ ops) = partition_from (file op p) ops

unfoldable pub partition_operations : List PosOperation → Partition
partition_operations ops = partition_from record { rejected = []; accepted = []; pending = [] } ops

abbrev pub totals_of : Partition → Totals
totals_of p = record {
  pending = length p.pending;
  accepted = length p.accepted;
  rejected = length p.rejected;
}

abbrev pub build_device_report : Key → Key → List PosOperation → DeviceReconciliationReport
build_device_report device_id store_id operations =
    let p = partition_operations operations in
    record { device_id = device_id; store_id = store_id; totals = totals_of p; operations = p }

module _ ⦃prisma : Prisma⦄ where
  unfoldable pub get_device_reconciliation : Key → Action DeviceReconciliationReport
  get_device_reconciliation device_id = do
    require_tenant_id
    found ← find_unique pos_device_model (λ r. r.id == device_id)
    device ← or_throw found (not_found device_not_found)
    operations ← find_many_by pos_operation_model (λ r. r.seq) (λ r. r.device_id == device_id)
    pure (build_device_report device_id device.store_id operations)

  unfoldable pub get_session_reconciliation : Key → Action SessionReconciliationReport
  get_session_reconciliation session_id = do
    require_tenant_id
    found ← find_unique pos_session_model (λ r. r.id == session_id)
    session ← or_throw found (not_found session_not_found)
    operations ← find_many_by pos_operation_model (λ r. r.seq) (λ r. r.session_id == session_id)
    let p = partition_operations operations
    pure record {
      session_id = session.id;
      device_id = session.device_id;
      store_id = session.store_id;
      cashier_id = session.user_id;
      totals = totals_of p;
      operations = p;
    }
