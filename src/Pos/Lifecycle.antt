-- ===== src/Pos/Lifecycle.antt =====
-- The state machine of a device, and that its credential is the last that was issued.
use business_platform.Prelude.{
  Bool, Bool-cases, In, List, Option, arith, count, count_pos, false, first, first-set_where,
  first_cases, inl, inr, none, refl, set_where, set_where-none, some, subst, sym, true, ◌&&◌, ◌==◌,
  ◌≡◌,
}
use business_platform.Prisma.{Prisma}
use business_platform.Schema.{Db, Key, Instant, PosDevice, PosDeviceStatus}
use business_platform.Platform.{
  already_retired, conflict, Error, database, Result, ok, err, within, not_found, device_not_found,
  pos_device_model,
}
use business_platform.Platform.Facts.{owned, owned_values, find_unique_eq, update_many_cases}
use business_platform.Platform.Unique.{IsKeyed, first-only}
use business_platform.Pos.Device.{
  refusal, Transition, PosDeviceSummary, find_device, require_device, transition, expects, sets,
  is_retired, to_summary,
}

-- The legal steps: ACTIVE and SUSPENDED to each other, and from both to RETIRED.
pub data Step : PosDeviceStatus → Transition → PosDeviceStatus → Type 0 where
  suspends : Step PosDeviceStatus.active Transition.suspend PosDeviceStatus.suspended
  resumes : Step PosDeviceStatus.suspended Transition.resume PosDeviceStatus.active
  retires_active : Step PosDeviceStatus.active Transition.retire PosDeviceStatus.retired
  retires_suspended : Step PosDeviceStatus.suspended Transition.retire PosDeviceStatus.retired

expects-Step : (s : PosDeviceStatus) (a : Transition) → expects a s ≡ true → Step s a (sets a)
expects-Step PosDeviceStatus.active Transition.suspend h = suspends
expects-Step PosDeviceStatus.suspended Transition.suspend h = ground arith
expects-Step PosDeviceStatus.retired Transition.suspend h = ground arith
expects-Step PosDeviceStatus.active Transition.resume h = ground arith
expects-Step PosDeviceStatus.suspended Transition.resume h = resumes
expects-Step PosDeviceStatus.retired Transition.resume h = ground arith
expects-Step PosDeviceStatus.active Transition.retire h = retires_active
expects-Step PosDeviceStatus.suspended Transition.retire h = retires_suspended
expects-Step PosDeviceStatus.retired Transition.retire h = ground arith

expects-alive : (s : PosDeviceStatus) (a : Transition) → expects a s ≡ true → is_retired s ≡ false
expects-alive s a h = ground arith

-- The device of tenant `t` with the identifier `id`.
abbrev pub device_in : Key → Key → Db → Option PosDevice
device_in t id db = first (λ r. r.id == id && r.tenant_id == t) db.pos_devices

-- How a transition ends: along a legal step, with the new status stored, or with an error and the
-- database as it was.
abbrev pub Moves : Key → Instant → Key → Transition → Db → Result PosDeviceSummary × Db → Type 0
Moves t now id a db (err e, db') = db' ≡ db
Moves t now id a db (ok s, db') =
    (d : PosDevice) × (device_in t id db ≡ some d)
    × Step d.status a s.status
    × (device_in t id db' ≡ some (record d { status = s.status; updated_at = now }))

module _ ⦃prisma : Prisma⦄ (t : Key) (now : Instant) (id : Key) where
  -- The rows of the device, and those that the action's guarded update changes.
  abbrev pub device_row : PosDevice → Bool
  device_row = owned pos_device_model t λ r. r.id == id

  abbrev guarded : Transition → PosDevice → Bool
  guarded a = owned pos_device_model t λ r. r.id == id && expects a r.status

  abbrev moved : Transition → List PosDevice → List PosDevice
  moved a rs =
      set_where (guarded a) (owned_values pos_device_model t now λ r. record r { status = sets a })
        rs

  pub require_device-eq :
      (db : Db) (d : PosDevice)
      → first device_row db.pos_devices ≡ some d
      → require_device id (within t now) db ≡ (ok d, db)
  unfolding require_device find_device
  require_device-eq db d e =
      ground (arith, find_unique_eq pos_device_model refl t now db λ (r : PosDevice). r.id == id)

  pub require_device-none :
      (db : Db)
      → first device_row db.pos_devices ≡ none
      → require_device id (within t now) db ≡ (err (not_found device_not_found), db)
  unfolding require_device find_device
  require_device-none db e =
      ground (arith, find_unique_eq pos_device_model refl t now db λ (r : PosDevice). r.id == id)

  -- The device after the update.
  moved-first :
      (a : Transition) (rs : List PosDevice) (d : PosDevice)
      → first device_row rs ≡ some d
      → guarded a d ≡ true
      → first device_row (moved a rs)
        ≡ some (owned_values pos_device_model t now (λ r. record r { status = sets a }) d)
  moved-first a rs d e h =
      first-set_where device_row (guarded a)
        (owned_values pos_device_model t now λ r. record r { status = sets a })
        (λ r k. ground arith) rs d e h

  transition-moved :
      (a : Transition) (db : Db) (d : PosDevice)
      → first device_row db.pos_devices ≡ some d
      → In d db.pos_devices
      → guarded a d ≡ true
      → Moves t now id a db (transition id a (within t now) db)
  unfolding transition
  transition-moved a db d e i h =
      let alive = expects-alive d.status a (ground arith) in
      elim (update_many_cases pos_device_model refl t now db (λ r. r.id == id && expects a r.status)
        (λ r. record r { status = sets a })) [
          | inr (x, failed) ↦
              let out : transition id a (within t now) db ≡ (err (database x), db) =
                ground (arith, require_device-eq db d e) in
              subst (Moves t now id a db) (sym out) refl
          | inl (done, k) ↦
              let after = record db { pos_devices = moved a db.pos_devices } in
              let d' = owned_values pos_device_model t now (λ r. record r { status = sets a }) d in
              let place = moved-first a db.pos_devices d e h in
              let out : transition id a (within t now) db ≡ (ok (to_summary d'), after) = ground (
                arith,
                require_device-eq db d e,
                require_device-eq after d' place,
                count_pos (guarded a) db.pos_devices d i h,
              ) in
              subst (Moves t now id a db) (sym out)
                (d, e, expects-Step d.status a (ground arith), ground (arith, place))
        ]

  -- A guarded update that fits no row changes nothing, and the action is refused.
  transition-refused :
      (a : Transition) (db : Db) (d : PosDevice)
      → first device_row db.pos_devices ≡ some d
      → count (guarded a) db.pos_devices ≡ 0
      → Moves t now id a db (transition id a (within t now) db)
  unfolding transition
  transition-refused a db d e none_fits =
      let refuses = λ (x : Error) (out : transition id a (within t now) db ≡ (err x, db)).
        subst (Moves t now id a db) (sym out) refl in
      let same =
        set_where-none (guarded a)
          (owned_values pos_device_model t now λ r. record r { status = sets a }) db.pos_devices
          none_fits in
      elim (Bool-cases (is_retired d.status)) [
        | inl retired ↦
            refuses (conflict already_retired) (ground (arith, require_device-eq db d e))
        | inr alive ↦
            elim (update_many_cases pos_device_model refl t now db
              (λ r. r.id == id && expects a r.status) (λ r. record r { status = sets a })) [
                | inr (x, failed) ↦ refuses (database x) (ground (arith, require_device-eq db d e))
                | inl (done, k) ↦
                    refuses (refusal a) (ground (arith, require_device-eq db d e, same))
              ]
      ]

  transition-unknown :
      (a : Transition) (db : Db)
      → first device_row db.pos_devices ≡ none
      → transition id a (within t now) db ≡ (err (not_found device_not_found), db)
  unfolding transition
  transition-unknown a db e = ground (arith, require_device-none db e)

  -- Where identifiers are unique, an action on a device takes it along a legal step of the state
  -- machine, from the status that it had, and stores the new status; or it fails and the database
  -- stays as it is. No step leaves the status RETIRED.
  pub transition-Moves :
      (a : Transition) (db : Db)
      → IsKeyed (λ (r : PosDevice). r.id) db.pos_devices
      → Moves t now id a db (transition id a (within t now) db)
  transition-Moves a db keyed = elim (first_cases device_row db.pos_devices) [
    | inl (e, z) ↦ subst (Moves t now id a db) (sym (transition-unknown a db e)) refl
    | inr (d, e, i, h) ↦ elim (Bool-cases (guarded a d)) [
      | inl fits ↦ transition-moved a db d e i fits
      | inr out ↦ transition-refused a db d e (
          first-only (λ (r : PosDevice). r.id) device_row (guarded a) id db.pos_devices d keyed
            (λ r k. ground arith) (λ r k. ground arith) i h out)
    ]
  ]
