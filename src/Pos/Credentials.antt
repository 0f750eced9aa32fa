-- ===== src/Pos/Credentials.antt =====
-- That the credential of a device is the one that was issued last.
use business_platform.Pos.Lifecycle.{device_in, require_device-eq, device_row, require_device-none}
use business_platform.Platform.Facts.{
  owned, owned_values, update_many_cases, find_unique_eq, create_cases,
}
use business_platform.Platform.{
  Error, Result, ok, err, within, pos_device_model, database, not_found, device_not_found, conflict,
  already_retired, store_model, store_not_found, fresh_id, create, catch, pure, ◌>>=◌, name_taken,
}
use business_platform.Prisma.{Prisma, DbError, p2002}
use business_platform.Prelude.{
  Bool, Bool-cases, In, Option-cases, arith, count_pos, false, first, first-set_where, first_cases,
  inl, inr, none, refl, set_where, some, subst, suc, sym, true, ◌&&◌, ◌==◌, ◌↔◌, ◌∷◌, ◌≡◌,
}
use business_platform.Schema.{Db, Key, Text, PosDevice, Instant, PosDeviceStatus, Store}
use business_platform.Pos.Device.{
  Crypto, verify_credential, PosDeviceRegistrationSummary, rotate_credential, is_retired,
  to_summary, create_credential_material, not_retired, CreatePosDeviceDto, register_device,
  name_handler,
}

module _ ⦃crypto : Crypto⦄ where
  -- A credential that passes has the digest of the stored hash, and the other way round.
  pub verify_credential-digest :
      (d : PosDevice) (presented : Text)
      → (verify_credential d presented ≡ true) ↔ (crypto.sha256_hex presented ≡ d.credential_hash)
  unfolding verify_credential
  verify_credential-digest d presented = (λ h. ground arith, λ h. rw h (ground arith))

-- The device accepts exactly the secrets with the digest of `secret`.
abbrev pub AcceptsOnly : ⦃crypto : Crypto⦄ → PosDevice → Text → Type 0
AcceptsOnly ⦃crypto⦄ d secret =
    (presented : Text)
    → (verify_credential d presented ≡ true)
      ↔ (crypto.sha256_hex presented ≡ crypto.sha256_hex secret)

-- How an issue of a credential to the device `id` ends.
abbrev pub Issued :
    ⦃crypto : Crypto⦄ → Key → Key → Db → Result PosDeviceRegistrationSummary × Db → Type 0
Issued t id db (err e, db') = db'.pos_devices ≡ db.pos_devices
Issued t id db (ok r, db') =
    (d : PosDevice) × (device_in t id db' ≡ some d)
    × (to_summary d ≡ r.device)
    × (is_retired d.status ≡ false)
    × AcceptsOnly d r.credential

module _ ⦃prisma : Prisma⦄ ⦃crypto : Crypto⦄ (t : Key) (now : Instant) (id : Key) where
  -- The rows that the rotation changes, and how.
  abbrev alive_row : PosDevice → Bool
  alive_row = owned pos_device_model t λ r. r.id == id && not_retired r.status

  abbrev rehashed : Text → PosDevice → PosDevice
  rehashed hash = owned_values pos_device_model t now λ r. record r { credential_hash = hash }

  abbrev drawn : Db → Db
  drawn db = record db { generated = suc db.generated }

  rotate_credential-found :
      (db : Db) (d : PosDevice)
      → device_in t id db ≡ some d
      → In d db.pos_devices
      → is_retired d.status ≡ false
      → d.id == id && d.tenant_id == t ≡ true
      → Issued t id db (rotate_credential id (within t now) db)
  unfolding rotate_credential create_credential_material
  rotate_credential-found db d e i alive own =
      let secret = crypto.random_secret db.generated in
      let hash = crypto.sha256_hex secret in
      elim (update_many_cases pos_device_model refl t now (drawn db)
        (λ r. r.id == id && not_retired r.status) (λ r. record r { credential_hash = hash })) [
          | inr (x, failed) ↦
              let out : rotate_credential id (within t now) db ≡ (err (database x), drawn db) =
                ground (arith, require_device-eq t now id db d e) in
              subst (Issued t id db) (sym out) refl
          | inl (done, k) ↦
              let after = record (drawn db) {
                pos_devices = set_where alive_row (rehashed hash) db.pos_devices;
              } in
              let fits : alive_row d ≡ true = ground arith in
              let place : device_in t id after ≡ some (rehashed hash d) =
                first-set_where (device_row t now id) alive_row (rehashed hash)
                  (λ r g. ground arith) db.pos_devices d e fits in
              let out : rotate_credential id (within t now) db ≡ (
                ok (record { device = to_summary (rehashed hash d); credential = secret }),
                after,
              ) =
                ground (
                  arith,
                  require_device-eq t now id db d e,
                  require_device-eq t now id after (rehashed hash d) place,
                  count_pos alive_row db.pos_devices d i fits,
                ) in
              subst (Issued t id db) (sym out)
                (rehashed hash d, place, refl, alive, verify_credential-digest (rehashed hash d))
        ]

  rotate_credential-retired :
      (db : Db) (d : PosDevice)
      → device_in t id db ≡ some d
      → is_retired d.status ≡ true
      → rotate_credential id (within t now) db ≡ (err (conflict already_retired), db)
  unfolding rotate_credential
  rotate_credential-retired db d e retired = ground (arith, require_device-eq t now id db d e)

  rotate_credential-unknown :
      (db : Db)
      → device_in t id db ≡ none
      → rotate_credential id (within t now) db ≡ (err (not_found device_not_found), db)
  unfolding rotate_credential
  rotate_credential-unknown db e = ground (arith, require_device-none t now id db e)

  -- A rotation that succeeds leaves a device, not retired, that accepts exactly the secrets with
  -- the digest of the credential that the response shows, so no other one than before; a rotation
  -- that fails, as that of a retired or unknown device does, leaves every device as it was.
  pub rotate_credential-Issued : (db : Db) → Issued t id db (rotate_credential id (within t now) db)
  rotate_credential-Issued db = elim (first_cases (device_row t now id) db.pos_devices) [
    | inl (e, z) ↦ subst (Issued t id db) (sym (rotate_credential-unknown db e)) refl
    | inr (d, e, i, own) ↦ elim (Bool-cases (is_retired d.status)) [
      | inl retired ↦ subst (Issued t id db) (sym (rotate_credential-retired db d e retired)) refl
      | inr alive ↦ rotate_credential-found db d e i alive own
    ]
  ]

module _ ⦃prisma : Prisma⦄ ⦃crypto : Crypto⦄ (t : Key) (now : Instant) where
  -- The device that a registration creates: active, in the store, with the hash of the secret.
  abbrev pub Registered :
      CreatePosDeviceDto → Db → Result PosDeviceRegistrationSummary × Db → Type 0
  Registered dto db (err e, db') = db'.pos_devices ≡ db.pos_devices
  Registered dto db (ok r, db') =
      (r.device.store_id ≡ dto.store_id)
      × (r.device.status ≡ PosDeviceStatus.active)
      × Issued t r.device.id db (ok r, db')

  -- The row, and the database before it is stored.
  abbrev new_device : CreatePosDeviceDto → Db → PosDevice
  new_device dto db = record {
    id = prisma.new_id (suc db.generated);
    tenant_id = t;
    store_id = dto.store_id;
    name = dto.name;
    status = PosDeviceStatus.active;
    credential_hash = crypto.sha256_hex (crypto.random_secret db.generated);
    last_seen_at = none;
    created_at = now;
    updated_at = now;
  }

  abbrev numbered : Db → Db
  numbered db = record db { generated = suc (suc db.generated) }

  register_device-unknown :
      (dto : CreatePosDeviceDto) (db : Db)
      → first (owned store_model t λ r. r.id == dto.store_id) db.stores ≡ none
      → register_device dto (within t now) db ≡ (err (not_found store_not_found), db)
  unfolding register_device
  register_device-unknown dto db e =
      ground (arith, find_unique_eq store_model refl t now db λ (r : Store). r.id == dto.store_id)

  register_device-stored :
      (dto : CreatePosDeviceDto) (db : Db) (s : Store)
      → first (owned store_model t λ r. r.id == dto.store_id) db.stores ≡ some s
      → register_device dto (within t now) db ≡ (
          (catch (create pos_device_model (new_device dto db)) name_handler >>= λ device.
          pure
            record { device = to_summary device; credential = crypto.random_secret db.generated })
            (within t now)
            (numbered db))
  unfolding register_device create_credential_material fresh_id
  register_device-stored dto db s e =
      ground (arith, find_unique_eq store_model refl t now db λ (r : Store). r.id == dto.store_id)

  name_handler-throws :
      (e : DbError) (db : Db)
      → (x : Error) × (name_handler {A = PosDevice} (database e) (within t now) db ≡ (err x, db))
  name_handler-throws (p2002 target) db = (conflict name_taken, refl)
  name_handler-throws e db = (database e, refl)

  -- A registration that succeeds returns an active device of the store that was asked for, which
  -- accepts exactly the secrets with the digest of the credential that the response shows; one that
  -- fails, for an unknown store or a name that is taken, leaves every device as it was.
  pub register_device-Registered :
      (dto : CreatePosDeviceDto) (db : Db)
      → Registered dto db (register_device dto (within t now) db)
  register_device-Registered dto db =
      elim (Option-cases (first (owned store_model t λ r. r.id == dto.store_id) db.stores)) [
        | inl e ↦ subst (Registered dto db) (sym (register_device-unknown dto db e)) refl
        | inr (s, e) ↦
            let out = register_device-stored dto db s e in
            elim (create_cases pos_device_model refl t now (numbered db) (new_device dto db)) [
              | inl (created, k) ↦
                  let d = new_device dto db in
                  let after = record (numbered db) { pos_devices = d ∷ db.pos_devices } in
                  let secret = crypto.random_secret db.generated in
                  let res : register_device dto (within t now) db
                      ≡ (ok (record { device = to_summary d; credential = secret }), after) =
                    ground (arith, out) in
                  subst (Registered dto db) (sym res)
                    (refl, refl, (d, ground arith, refl, refl, verify_credential-digest d))
              | inr (x, failed, k) ↦
                  let (y, thrown) = name_handler-throws x (numbered db) in
                  let res : register_device dto (within t now) db ≡ (err y, numbered db) =
                    ground (arith, out) in
                  subst (Registered dto db) (sym res) refl
            ]
      ]
