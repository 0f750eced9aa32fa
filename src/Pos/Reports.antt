-- ===== src/Pos/Reports.antt =====
-- What the reports of src/pos/pos-reconciliation.service.ts say of the table of operations.
use business_platform.Prelude.{
  Bool, List, [], ap, arith, count, false, first, map, none, refl, select, true, ℕ, ◌&&◌, ◌++◌,
  ◌==◌, ◌∙◌, ◌∷◌, ◌≡◌,
}
use business_platform.Prisma.{Prisma}
use business_platform.Schema.{Db, Key, PosOperation, PosOperationStatus, PosDevice}
use business_platform.Platform.{Result, ok, err, not_found, device_not_found}
use business_platform.Pos.Reconciliation.{
  Partition, ReconciledOperation, project, file, partition_from, partition_operations,
  DeviceReconciliationReport,
}

abbrev pub is_rejected : PosOperation → Bool
is_rejected r = elim r.status [ PosOperationStatus.rejected ↦ true | _ ↦ false ]

abbrev pub is_accepted : PosOperation → Bool
is_accepted r = elim r.status [
  | PosOperationStatus.accepted ↦ true
  | PosOperationStatus.duplicate ↦ true
  | _ ↦ false
]

abbrev pub is_unresolved : PosOperation → Bool
is_unresolved r = elim r.status [ PosOperationStatus.pending ↦ true | _ ↦ false ]

abbrev projected : (PosOperation → Bool) → List PosOperation → List ReconciledOperation
projected w ops = map project (select w ops)

snoc-append : {A : Type 0} (xs : List A) (y : A) (ys : List A) → (xs ++ y ∷ []) ++ ys ≡ xs ++ y ∷ ys
snoc-append [] y ys = refl
snoc-append (x ∷ xs) y ys = ap (λ l. x ∷ l) (snoc-append xs y ys)

append_nil : {A : Type 0} (xs : List A) → xs ++ [] ≡ xs
append_nil [] = refl
append_nil (x ∷ xs) = ap (λ l. x ∷ l) (append_nil xs)

partition_from-append :
    (p : Partition) (ops : List PosOperation)
    → partition_from p ops ≡ record {
      rejected = p.rejected ++ projected is_rejected ops;
      accepted = p.accepted ++ projected is_accepted ops;
      pending = p.pending ++ projected is_unresolved ops;
    }
unfolding partition_from
partition_from-append p [] = cc (append_nil p.rejected, append_nil p.accepted, append_nil p.pending)
partition_from-append p (op ∷ ops) =
    partition_from-append (file op p) ops
    ∙ ground (
      arith,
      snoc-append p.rejected (project op) (projected is_rejected ops),
      snoc-append p.accepted (project op) (projected is_accepted ops),
      snoc-append p.pending (project op) (projected is_unresolved ops),
    )

-- The partition is the three selections by status, projected and in their order: every operation
-- is in exactly one of the lists.
pub partition_operations-select :
    (ops : List PosOperation)
    → partition_operations ops ≡ record {
      rejected = map project (select is_rejected ops);
      accepted = map project (select is_accepted ops);
      pending = map project (select is_unresolved ops);
    }
unfolding partition_operations
partition_operations-select ops = partition_from-append _ ops

-- The operations of the device in the table, by a test.
abbrev pub of_device : Key → Key → (PosOperation → Bool) → Db → ℕ
of_device t device v db =
    count (λ r. (r.device_id == device && r.tenant_id == t) && v r) db.pos_operations

-- The report counts the device's operations in the database, and the database stays as it is.
abbrev pub Reports : Key → Key → Db → Result DeviceReconciliationReport × Db → Type 0
Reports t device db (ok report, db') =
    (report.totals.rejected ≡ of_device t device is_rejected db)
    × (report.totals.accepted ≡ of_device t device is_accepted db)
    × (report.totals.pending ≡ of_device t device is_unresolved db)
    × (db' ≡ db)
Reports t device db (err e, db') =
    (first (λ (r : PosDevice). r.id == device && r.tenant_id == t) db.pos_devices ≡ none)
    × (e ≡ not_found device_not_found)
    × (db' ≡ db)
