-- ===== src/Pos/Device.antt =====
-- src/pos/pos-device.service.ts: the devices of a tenant, their lifecycle and their credentials.
use business_platform.Prelude.{
  Bool, Option, false, if◌then◌else◌, none, some, true, ◌&&◌, ◌==◌, ◌||◌, ℕ, suc,
}
use business_platform.Prisma.{Prisma, p2002}
use business_platform.Schema.{Key, Instant, Text, PosDevice, PosDeviceStatus}
use business_platform.Platform.{
  Error, Action, pure, throw, or_throw, throw_if, catch, ok, database, not_found, conflict,
  store_not_found, device_not_found, name_taken, device_not_active, not_suspended, already_retired,
  ◌>>=◌, ◌>>◌, require_tenant_id, current_time, find_unique, create, update, update_many, fresh_id,
  store_model, pos_device_model,
}
use business_platform.Pos.Session.{is_active}

-- node:crypto and Buffer, as far as the credentials use them.
pub record Crypto : Type 0 where
  pub sha256_hex : Text → Text
  -- The n-th `randomBytes(48).toString('base64url')`.
  pub random_secret : ℕ → Text
  pub byte_length : Text → ℕ

pub record CreatePosDeviceDto : Type 0 where
  pub store_id : Key
  pub name : Text

pub record UpdatePosDeviceDto : Type 0 where
  pub name : Option Text

pub record PosDeviceSummary : Type 0 where
  pub id : Key
  pub tenant_id : Key
  pub store_id : Key
  pub name : Text
  pub status : PosDeviceStatus
  pub last_seen_at : Option Instant
  pub created_at : Instant
  pub updated_at : Instant

-- A summary with the plaintext credential.
pub record PosDeviceRegistrationSummary : Type 0 where
  pub device : PosDeviceSummary
  pub credential : Text

abbrev pub to_summary : PosDevice → PosDeviceSummary
to_summary d = record {
  id = d.id;
  tenant_id = d.tenant_id;
  store_id = d.store_id;
  name = d.name;
  status = d.status;
  last_seen_at = d.last_seen_at;
  created_at = d.created_at;
  updated_at = d.updated_at;
}

pub data Transition : Type 0 where
  suspend resume retire : Transition

abbrev pub is_suspended : PosDeviceStatus → Bool
is_suspended PosDeviceStatus.suspended = true
is_suspended _ = false

abbrev pub is_retired : PosDeviceStatus → Bool
is_retired PosDeviceStatus.retired = true
is_retired _ = false

-- `status: { in: ['ACTIVE', 'SUSPENDED'] }`
abbrev pub not_retired : PosDeviceStatus → Bool
not_retired s = is_active s || is_suspended s

-- The statuses that an action expects, the one that it sets, and its error.
abbrev pub expects : Transition → PosDeviceStatus → Bool
expects suspend s = is_active s
expects resume s = is_suspended s
expects retire s = not_retired s

abbrev pub sets : Transition → PosDeviceStatus
sets suspend = PosDeviceStatus.suspended
sets resume = PosDeviceStatus.active
sets retire = PosDeviceStatus.retired

abbrev pub refusal : Transition → Error
refusal suspend = conflict device_not_active
refusal resume = conflict not_suspended
refusal retire = conflict already_retired

-- The handler of `registerDevice` and `updateDevice`.
abbrev pub name_handler : {A : Type 0} → Error → Action A
name_handler (database (p2002 target)) = throw (conflict name_taken)
name_handler e = throw e

-- The device with the name of the DTO, if it has one.
abbrev pub renamed : UpdatePosDeviceDto → PosDevice → PosDevice
renamed dto r = elim dto.name [ none ↦ r | some n ↦ record r { name = n } ]

module _ ⦃crypto : Crypto⦄ where
  -- `timingSafeEqual` throws on buffers of two lengths, hence the test before it.
  unfoldable pub verify_credential : PosDevice → Text → Bool
  verify_credential device presented =
      let hash = crypto.sha256_hex presented in
      if crypto.byte_length hash == crypto.byte_length device.credential_hash
      then hash == device.credential_hash
      else false

  -- A fresh secret and its hash. The draws are counted with the identifiers.
  unfoldable pub create_credential_material : Action (Text × Text)
  create_credential_material c db =
      let credential = crypto.random_secret db.generated in
      (ok (credential, crypto.sha256_hex credential), record db { generated = suc db.generated })

module _ ⦃prisma : Prisma⦄ where
  unfoldable pub find_device : Key → Action (Option PosDevice)
  find_device id = find_unique pos_device_model (λ r. r.id == id)

  -- The lookup with its 404.
  unfoldable pub require_device : Key → Action PosDevice
  unfolding find_device
  require_device id = do found ← find_device id; or_throw found (not_found device_not_found)

  unfoldable pub get_device : Key → Action PosDeviceSummary
  get_device id = do require_tenant_id; device ← require_device id; pure (to_summary device)

  unfoldable pub update_device : Key → UpdatePosDeviceDto → Action PosDeviceSummary
  update_device id dto = do
    require_tenant_id
    require_device id
    updated ← catch (update pos_device_model (λ r. r.id == id) (renamed dto)) name_handler
    pure (to_summary updated)

  unfoldable pub transition : Key → Transition → Action PosDeviceSummary
  transition id action = do
    require_tenant_id
    device ← require_device id
    throw_if (is_retired device.status) (conflict already_retired)
    count ←
        update_many pos_device_model (λ r. r.id == id && expects action r.status)
          (λ r. record r { status = sets action })
    throw_if (count == 0) (refusal action)
    fresh ← require_device id
    pure (to_summary fresh)

module _ ⦃prisma : Prisma⦄ ⦃crypto : Crypto⦄ where
  unfoldable pub register_device : CreatePosDeviceDto → Action PosDeviceRegistrationSummary
  register_device dto = do
    tenant_id ← require_tenant_id
    store ← find_unique store_model (λ r. r.id == dto.store_id)
    or_throw store (not_found store_not_found)
    material ← create_credential_material
    id ← fresh_id
    now ← current_time
    device ←
        catch
          (create pos_device_model record {
            id = id;
            tenant_id = tenant_id;
            store_id = dto.store_id;
            name = dto.name;
            status = PosDeviceStatus.active;
            credential_hash = material.1;
            last_seen_at = none;
            created_at = now;
            updated_at = now;
          })
          name_handler
    pure record { device = to_summary device; credential = material.0 }

  unfoldable pub rotate_credential : Key → Action PosDeviceRegistrationSummary
  rotate_credential id = do
    require_tenant_id
    device ← require_device id
    throw_if (is_retired device.status) (conflict already_retired)
    material ← create_credential_material
    count ←
        update_many pos_device_model (λ r. r.id == id && not_retired r.status)
          (λ r. record r { credential_hash = material.1 })
    throw_if (count == 0) (conflict already_retired)
    fresh ← require_device id
    pure record { device = to_summary fresh; credential = material.0 }
