-- ===== src/Platform/Isolation.antt =====
-- Tenant isolation of the scoped client: a request of tenant `t` keeps every row of every other
-- tenant, whatever an operation selects and writes.
use business_platform.Platform.Constraints.{some_row}
use business_platform.Prelude.{
  drop_where, Bool, List, [], arith, not, refl, select, set_where, true, ◌==◌, ◌∷◌, ◌≡◌, Bool-cases,
  inl, inr, first_cases, ◌&&◌,
}
use business_platform.Prisma.{Prisma}
use business_platform.Schema.{Db, Key, Instant}
use business_platform.Platform.Effects.{within}
use business_platform.Platform.Scoping.{is_tenant_scoped}
use business_platform.Platform.Models.{
  Model, store_model, customer_model, category_model, product_model, product_variant_model,
  price_model, inventory_model, cart_model, cart_item_model, order_model, order_item_model,
  payment_model, equipment_model, reservation_model, service_model, booking_model, pos_device_model,
  pos_session_model, pos_sale_model, pos_operation_model, pos_operation_item_model,
  pos_feed_event_model, membership_model, role_model,
}
use business_platform.Platform.Client.{delete, create, update, update_many, fresh_id, delete_unless}
use business_platform.Platform.Facts.{
  owned, owned_values, delete_cases, create_cases, update_cases, update_many_cases,
}
use business_platform.Platform.Frames.{Keeps, Keeps-fresh_id, keeps}

-- The rows that do not belong to tenant `t`.
abbrev pub others : {Row : Type 0} → Model Row → Key → List Row → List Row
others m t rs = select (λ r. not (m.tenant_of r == t)) rs

-- The database without the rows of tenant `t`, and without the identifier counter. Users,
-- permissions and grants are shared.
abbrev pub foreign : Key → Db → Db
foreign t db = record {
  stores = others store_model t db.stores;
  customers = others customer_model t db.customers;
  categories = others category_model t db.categories;
  products = others product_model t db.products;
  variants = others product_variant_model t db.variants;
  prices = others price_model t db.prices;
  inventories = others inventory_model t db.inventories;
  carts = others cart_model t db.carts;
  cart_items = others cart_item_model t db.cart_items;
  orders = others order_model t db.orders;
  order_items = others order_item_model t db.order_items;
  payments = others payment_model t db.payments;
  equipments = others equipment_model t db.equipments;
  reservations = others reservation_model t db.reservations;
  services = others service_model t db.services;
  bookings = others booking_model t db.bookings;
  pos_devices = others pos_device_model t db.pos_devices;
  pos_sessions = others pos_session_model t db.pos_sessions;
  pos_sales = others pos_sale_model t db.pos_sales;
  pos_operations = others pos_operation_model t db.pos_operations;
  pos_operation_items = others pos_operation_item_model t db.pos_operation_items;
  pos_feed_events = others pos_feed_event_model t db.pos_feed_events;
  memberships = others membership_model t db.memberships;
  roles = others role_model t db.roles;
  permissions = db.permissions;
  role_permissions = db.role_permissions;
  users = db.users;
  generated = 0;
}

-- What the descriptor of a model must satisfy.
pub record IsLocal {Row : Type 0} (m : Model Row) : Type 0 where
  pub scoped : is_tenant_scoped m.name ≡ true
  pub created : (t : Key) (r : Row) → m.tenant_of (m.with_tenant t r) ≡ t
  pub touched :
      (now : Instant) (t : Key) (r : Row) → m.tenant_of (m.touch now (m.with_tenant t r)) ≡ t
  pub within_table :
      (t : Key) (rs : List Row) (db : Db)
      → others m t rs ≡ others m t (m.rows db)
      → foreign t (m.with_rows rs db) ≡ foreign t db

module _ {Row : Type 0} (m : Model Row) (h : IsLocal m) (t : Key) (now : Instant) where
  others-set_where :
      (w : Row → Bool) (f : Row → Row) (rs : List Row)
      → others m t (set_where (owned m t w) (owned_values m t now f) rs) ≡ others m t rs
  others-set_where w f [] = refl
  others-set_where w f (r ∷ rs) = ground (arith, h.touched now t (f r), others-set_where w f rs)

  others-create : (r : Row) (rs : List Row) → others m t (m.with_tenant t r ∷ rs) ≡ others m t rs
  others-create r rs = ground (arith, h.created t r)

module _ {Row : Type 0} (m : Model Row) (t : Key) where
  pub others-drop_where :
      (w : Row → Bool) (rs : List Row) → others m t (drop_where (owned m t w) rs) ≡ others m t rs
  others-drop_where w [] = refl
  others-drop_where w (r ∷ rs) = ground (arith, others-drop_where w rs)

module _ ⦃prisma : Prisma⦄ {Row : Type 0} {t : Key} {now : Instant} {m : Model Row}
    (h : IsLocal m) where
  pub Isolated-create : (r : Row) → Keeps (within t now) (foreign t) (create m r)
  Isolated-create r = record {
    apply = λ db. ground (
      arith,
      create_cases m h.scoped t now db r,
      h.within_table t (m.with_tenant t r ∷ m.rows db) db (others-create m h t now r (m.rows db)),
    );
  }

  pub Isolated-update :
      (w : Row → Bool) (f : Row → Row) → Keeps (within t now) (foreign t) (update m w f)
  Isolated-update w f = record {
    apply = λ db. ground (
      arith,
      update_cases m h.scoped t now db w f,
      h.within_table t (set_where (owned m t w) (owned_values m t now f) (m.rows db)) db
          (others-set_where m h t now w f (m.rows db)),
    );
  }

  pub Isolated-update_many :
      (w : Row → Bool) (f : Row → Row) → Keeps (within t now) (foreign t) (update_many m w f)
  Isolated-update_many w f = record {
    apply = λ db. ground (
      arith,
      update_many_cases m h.scoped t now db w f,
      h.within_table t (set_where (owned m t w) (owned_values m t now f) (m.rows db)) db
          (others-set_where m h t now w f (m.rows db)),
    );
  }

  pub Isolated-delete : (w : Row → Bool) → Keeps (within t now) (foreign t) (delete m w)
  Isolated-delete w = record {
    apply = λ db. ground (
      arith,
      delete_cases m h.scoped t now db w,
      h.within_table t (drop_where (owned m t w) (m.rows db)) db
          (others-drop_where m t w (m.rows db)),
    );
  }

  pub Isolated-delete_unless :
      (is_referenced : Row → Db → Bool) (w : Row → Bool)
      → Keeps (within t now) (foreign t) (delete_unless m is_referenced w)
  unfolding delete_unless
  Isolated-delete_unless is_referenced w = record {
    apply = λ db.
        elim (Bool-cases (some_row (λ r. owned m t w r && is_referenced r db) (m.rows db))) [
          | inl used ↦ let scoped = h.scoped in ground arith
          | inr free ↦
              let scoped = h.scoped in
              let law = prisma.delete_lem Row (owned m t w) (m.rows db) in
              let rest =
                h.within_table t (drop_where (owned m t w) (m.rows db)) db
                  (others-drop_where m t w (m.rows db)) in
              ground (arith, first_cases (owned m t w) (m.rows db))
        ];
  }

pub inventory-IsLocal : IsLocal inventory_model
inventory-IsLocal = record {
  scoped = refl;
  created = λ t r. refl;
  touched = λ now t r. refl;
  within_table = λ t rs db e. cc;
}

pub cart-IsLocal : IsLocal cart_model
cart-IsLocal = record {
  scoped = refl;
  created = λ t r. refl;
  touched = λ now t r. refl;
  within_table = λ t rs db e. cc;
}

pub cart_item-IsLocal : IsLocal cart_item_model
cart_item-IsLocal = record {
  scoped = refl;
  created = λ t r. refl;
  touched = λ now t r. refl;
  within_table = λ t rs db e. cc;
}

pub order-IsLocal : IsLocal order_model
order-IsLocal = record {
  scoped = refl;
  created = λ t r. refl;
  touched = λ now t r. refl;
  within_table = λ t rs db e. cc;
}

pub order_item-IsLocal : IsLocal order_item_model
order_item-IsLocal = record {
  scoped = refl;
  created = λ t r. refl;
  touched = λ now t r. refl;
  within_table = λ t rs db e. cc;
}

pub payment-IsLocal : IsLocal payment_model
payment-IsLocal = record {
  scoped = refl;
  created = λ t r. refl;
  touched = λ now t r. refl;
  within_table = λ t rs db e. cc;
}

pub category-IsLocal : IsLocal category_model
category-IsLocal = record {
  scoped = refl;
  created = λ t r. refl;
  touched = λ now t r. refl;
  within_table = λ t rs db e. cc;
}

pub product-IsLocal : IsLocal product_model
product-IsLocal = record {
  scoped = refl;
  created = λ t r. refl;
  touched = λ now t r. refl;
  within_table = λ t rs db e. cc;
}

pub reservation-IsLocal : IsLocal reservation_model
reservation-IsLocal = record {
  scoped = refl;
  created = λ t r. refl;
  touched = λ now t r. refl;
  within_table = λ t rs db e. cc;
}

pub booking-IsLocal : IsLocal booking_model
booking-IsLocal = record {
  scoped = refl;
  created = λ t r. refl;
  touched = λ now t r. refl;
  within_table = λ t rs db e. cc;
}

pub pos_session-IsLocal : IsLocal pos_session_model
pos_session-IsLocal = record {
  scoped = refl;
  created = λ t r. refl;
  touched = λ now t r. refl;
  within_table = λ t rs db e. cc;
}

pub pos_sale-IsLocal : IsLocal pos_sale_model
pos_sale-IsLocal = record {
  scoped = refl;
  created = λ t r. refl;
  touched = λ now t r. refl;
  within_table = λ t rs db e. cc;
}

pub pos_device-IsLocal : IsLocal pos_device_model
pos_device-IsLocal = record {
  scoped = refl;
  created = λ t r. refl;
  touched = λ now t r. refl;
  within_table = λ t rs db e. cc;
}

pub pos_operation-IsLocal : IsLocal pos_operation_model
pos_operation-IsLocal = record {
  scoped = refl;
  created = λ t r. refl;
  touched = λ now t r. refl;
  within_table = λ t rs db e. cc;
}

pub pos_operation_item-IsLocal : IsLocal pos_operation_item_model
pos_operation_item-IsLocal = record {
  scoped = refl;
  created = λ t r. refl;
  touched = λ now t r. refl;
  within_table = λ t rs db e. cc;
}

pub membership-IsLocal : IsLocal membership_model
membership-IsLocal = record {
  scoped = refl;
  created = λ t r. refl;
  touched = λ now t r. refl;
  within_table = λ t rs db e. cc;
}

pub role-IsLocal : IsLocal role_model
role-IsLocal = record {
  scoped = refl;
  created = λ t r. refl;
  touched = λ now t r. refl;
  within_table = λ t rs db e. cc;
}

pub Isolated-fresh_id :
    ⦃prisma : Prisma⦄ {t : Key} {now : Instant} → Keeps (within t now) (foreign t) fresh_id
Isolated-fresh_id {t} = Keeps-fresh_id (foreign t) (λ n db. refl)

pub ruleset isolation = (
  keeps, Isolated-fresh_id, Isolated-create, Isolated-update, Isolated-update_many, Isolated-delete,
  Isolated-delete_unless, category-IsLocal, product-IsLocal, membership-IsLocal, role-IsLocal,
  inventory-IsLocal, cart-IsLocal, cart_item-IsLocal, order-IsLocal, order_item-IsLocal,
  payment-IsLocal, reservation-IsLocal, booking-IsLocal, pos_session-IsLocal, pos_sale-IsLocal,
  pos_device-IsLocal, pos_operation-IsLocal, pos_operation_item-IsLocal,
)
