-- ===== src/Platform/Scoping.antt =====
-- The tenant-scoping extension, src/common/database/prisma/tenant-scoping.extension.ts: the
-- arguments of an operation as tests and changes of rows.
use business_platform.Prelude.{Bool, true, false, none, some, ◌&&◌, ◌==◌}
use business_platform.Schema.{Key, ModelName}
use business_platform.Platform.Models.{Model}
use business_platform.Platform.Effects.{
  Result, ok, err, Context, internal_server_error, no_tenant_context,
}

-- `TENANT_SCOPED_MODELS.has`
abbrev pub is_tenant_scoped : ModelName → Bool
is_tenant_scoped ModelName.membership = true
is_tenant_scoped ModelName.role = true
is_tenant_scoped ModelName.store = true
is_tenant_scoped ModelName.asset = true
is_tenant_scoped ModelName.equipment = true
is_tenant_scoped ModelName.customer = true
is_tenant_scoped ModelName.reservation = true
is_tenant_scoped ModelName.category = true
is_tenant_scoped ModelName.product = true
is_tenant_scoped ModelName.product_variant = true
is_tenant_scoped ModelName.price = true
is_tenant_scoped ModelName.inventory = true
is_tenant_scoped ModelName.cart = true
is_tenant_scoped ModelName.cart_item = true
is_tenant_scoped ModelName.order = true
is_tenant_scoped ModelName.order_item = true
is_tenant_scoped ModelName.payment = true
is_tenant_scoped ModelName.pos_device = true
is_tenant_scoped ModelName.pos_session = true
is_tenant_scoped ModelName.pos_sale = true
is_tenant_scoped ModelName.pos_operation = true
is_tenant_scoped ModelName.pos_operation_item = true
is_tenant_scoped ModelName.pos_feed_event = true
is_tenant_scoped ModelName.service = true
is_tenant_scoped ModelName.booking = true
is_tenant_scoped _ = false

pub data Operation : Type 0 where
  find_unique find_unique_or_throw find_first find_first_or_throw find_many : Operation
  count aggregate group_by create create_many update update_many : Operation
  delete delete_many upsert other : Operation

-- `MutableOperationArgs`: `filter` is `where`, and the others change a row to the values that
-- they give.
pub record OperationArgs (Row : Type 0) : Type 0 where
  pub filter : Row → Bool
  pub values : Row → Row
  pub create_values : Row → Row
  pub update_values : Row → Row

module _ {Row : Type 0} where
  abbrev pub filter_args : (Row → Bool) → OperationArgs Row
  filter_args w = record {
    filter = w;
    values = λ r. r;
    create_values = λ r. r;
    update_values = λ r. r;
  }

  -- `{ ...scoped.where, tenantId }` and `{ ...scoped.data, tenantId }`, with the tenant last.
  abbrev scoped_filter : Model Row → Key → OperationArgs Row → OperationArgs Row
  scoped_filter m t a = record a { filter = λ r. a.filter r && m.tenant_of r == t }

  abbrev scoped_values : Model Row → Key → OperationArgs Row → OperationArgs Row
  scoped_values m t a = record a { values = λ r. m.with_tenant t (a.values r) }

  abbrev pub scope_args : Model Row → Operation → OperationArgs Row → Key → OperationArgs Row
  scope_args m Operation.find_unique a t = scoped_filter m t a
  scope_args m Operation.find_unique_or_throw a t = scoped_filter m t a
  scope_args m Operation.find_first a t = scoped_filter m t a
  scope_args m Operation.find_first_or_throw a t = scoped_filter m t a
  scope_args m Operation.find_many a t = scoped_filter m t a
  scope_args m Operation.count a t = scoped_filter m t a
  scope_args m Operation.aggregate a t = scoped_filter m t a
  scope_args m Operation.group_by a t = scoped_filter m t a
  scope_args m Operation.create a t = scoped_values m t a
  scope_args m Operation.create_many a t = scoped_values m t a
  scope_args m Operation.update a t = scoped_values m t (scoped_filter m t a)
  scope_args m Operation.update_many a t = scoped_values m t (scoped_filter m t a)
  scope_args m Operation.delete a t = scoped_filter m t a
  scope_args m Operation.delete_many a t = scoped_filter m t a
  scope_args m Operation.upsert a t = record (scoped_filter m t a) {
    create_values = λ r. m.with_tenant t (a.create_values r);
    update_values = λ r. m.with_tenant t (a.update_values r);
  }
  scope_args m Operation.other a t = a

  -- `$allOperations`: the arguments that reach the query, or the throw of `requireTenantId`.
  abbrev pub all_operations :
      Model Row → Operation → OperationArgs Row → Context → Result (OperationArgs Row)
  all_operations m op a c = elim (is_tenant_scoped m.name) [
    | false ↦ ok a
    | true ↦ elim c.tenant_id [
      | none ↦ err (internal_server_error no_tenant_context)
      | some t ↦ ok (scope_args m op a t)
    ]
  ]
