-- ===== src/Platform/Effects.antt =====
-- Exceptions as results, the context of a request, and actions on the database.
use business_platform.Prelude.{◌≡◌, refl, ◌⊎◌, inl, inr, Bool, true, false, Option, none, some}
use business_platform.Prisma.{DbError}
use business_platform.Schema.{Db, Key, Instant}

-- The messages of the exceptions, spelled like the constants that hold them.
pub data Message : Type 0 where
  no_tenant_context : Message
  variant_not_found store_not_found insufficient_stock : Message
  order_not_found variant_not_active price_not_found currency_mismatch : Message
  cart_empty customer_not_found not_pending booking_already_linked : Message
  captured_exists payment_not_found not_processing already_captured already_failed : Message
  failed_cannot_capture captured_cannot_fail : Message
  reservation_not_found equipment_not_found overlap_conflict not_mutable : Message
  already_cancelled invalid_range not_startable not_completable not_before_start : Message
  not_before_end invalid_timestamp : Message
  booking_not_found overlap_error service_not_found service_not_active end_before_start : Message
  device_not_found device_not_active session_not_found already_open not_open : Message
  session_not_open offline_must_be_cash sale_not_found : Message
  invalid_cursor invalid_list_range : Message
  name_taken not_suspended already_retired : Message
  operation_not_found invalid_device_credential sync_in_progress sequence_used : Message
  invalid_feed_cursor insufficient_permissions : Message
  cart_not_found cart_item_not_found : Message
  role_key_taken role_assigned role_not_found system_role_immutable : Message
  unknown_permission duplicate_permission permission_list_too_large : Message
  permission_id_too_long create_requires_permission reserved_role_key : Message
  grant_exceeds_actor self_role_change owner_assignment last_owner : Message
  category_not_found category_name_taken in_use product_not_found code_taken : Message
  membership_not_found self_status_change last_active_owner : Message

-- What a method throws: the HTTP exception with its message, or a database error that it lets pass.
pub data Error : Type 0 where
  not_found conflict bad_request internal_server_error unauthorized forbidden : Message → Error
  database : DbError → Error
  type_error : Error  -- a property of undefined or null was read

pub data Result (A : Type 0) : Type 0 where
  ok : A → Result A
  err : Error → Result A

-- The context of a request: TenantContextService's store and the time of the request.
pub record Context : Type 0 where
  pub tenant_id : Option Key
  pub now : Instant

-- A request that runs for tenant `t`.
abbrev pub within : Key → Instant → Context
within t now = record { tenant_id = some t; now = now }

-- A request outside `TenantContextService.run`.
abbrev pub outside : Instant → Context
outside now = record { tenant_id = none; now = now }

-- What was written stays written after a throw, unless a transaction rolls it back.
abbrev pub Action : Type 0 → Type 0
Action A = Context → Db → Result A × Db

module _ {A : Type 0} where
  abbrev pub pure : A → Action A
  pure a c db = (ok a, db)

  abbrev pub throw : Error → Action A
  throw e c db = (err e, db)

  -- `if (!x) throw e`
  abbrev pub or_throw : Option A → Error → Action A
  or_throw (some a) e = pure a
  or_throw none e = throw e

  -- `if (x) present else absent`, for a row or null.
  abbrev pub if_found : {X : Type 0} → Option X → Action A → (X → Action A) → Action A
  if_found none absent present = absent
  if_found (some x) absent present = present x

  -- `prisma.$transaction(async (tx) => …)`: a throw undoes every write.
  abbrev pub transaction : Action A → Action A
  transaction m c db = let (r, db') = m c db in elim r [ ok a ↦ (ok a, db') | err e ↦ (err e, db) ]

  -- `try { m } catch (error) { … }`
  abbrev pub catch : Action A → (Error → Action A) → Action A
  catch m handler c db =
      let (r, db') = m c db in elim r [ ok a ↦ (ok a, db') | err e ↦ handler e c db' ]

infixl 5 ◌>>=◌ ◌>>◌
abbrev pub ◌>>=◌ : {A B : Type 0} → Action A → (A → Action B) → Action B
◌>>=◌ m f c db = let (r, db') = m c db in elim r [ ok a ↦ f a c db' | err e ↦ (err e, db') ]

abbrev pub ◌>>◌ : {A B : Type 0} → Action A → Action B → Action B
m >> k = m >>= λ _. k

-- `if (test) throw e`
abbrev pub throw_if : Bool → Error → Action (Unit {0})
throw_if true e = throw e
throw_if false e = pure tt

-- `if (test) { … }`
abbrev pub when : Bool → Action (Unit {0}) → Action (Unit {0})
when true m = m
when false m = pure tt

-- `TenantContextService.requireTenantId`
abbrev pub require_tenant_id : Action Key
require_tenant_id c = or_throw c.tenant_id (internal_server_error no_tenant_context) c

-- `new Date()`
abbrev pub current_time : Action Instant
current_time c = pure c.now c

-- `return` of a computed result.
abbrev pub returns : {A : Type 0} → Result A → Action A
returns r c db = (r, db)

-- `if (x !== undefined) …`
abbrev pub when_given : Option Key → (Key → Action (Unit {0})) → Action (Unit {0})
when_given none f = pure tt
when_given (some k) f = f k

-- A call either returns or throws.
pub Outcome-cases :
    {A : Type 0} (o : Result A × Db)
    → ((a : A) × (db : Db) × (o ≡ (ok a, db))) ⊎ ((e : Error) × (db : Db) × (o ≡ (err e, db)))
Outcome-cases (ok a, db) = inl (a, db, refl)
Outcome-cases (err e, db) = inr (e, db, refl)

pub Result-cases :
    {A : Type 0} (r : Result A) → ((a : A) × (r ≡ ok a)) ⊎ ((e : Error) × (r ≡ err e))
Result-cases (ok a) = inl (a, refl)
Result-cases (err e) = inr (e, refl)
