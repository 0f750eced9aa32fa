-- ===== src/Pos/Opening.antt =====
-- That a device has one open session: what `openSession` of src/pos/pos-session.service.ts does.
use business_platform.Prelude.{
  Bool-cases, List, arith, count, false, first_cases, inl, inr, none, refl, suc, ◌==◌, ◌∷◌, ◌≡◌,
  first, some, true, subst, sym,
}
use business_platform.Prisma.{Prisma}
use business_platform.Schema.{
  Db, Key, Instant, PosSession, PosSessionStatus, PosDevice, PosDeviceStatus,
}
use business_platform.Platform.{
  Result, ok, err, within, pos_device_model, pos_session_model, fresh_id,
}
use business_platform.Platform.Constraints.{pos_session_check, clash, sessions_clash}
use business_platform.Platform.Facts.{owned, find_unique_eq, create_cases}
use business_platform.Pos.Session.{PosSessionSummary, is_active, open_session, to_summary}
use business_platform.Pos.Shifts.{open_on, clash-open_on}

-- What the new session's row holds, for a device of the tenant that its row `d` stands for.
abbrev pub IsNew : Key → Instant → Key → PosDevice → PosSession → Type 0
IsNew t now user d r =
    (r.tenant_id ≡ t)
    × (r.user_id ≡ user)
    × (r.device_id ≡ d.id)
    × (r.store_id ≡ d.store_id)
    × (r.status ≡ PosSessionStatus.opened)
    × (r.opened_at ≡ now)
    × (r.closed_at ≡ none)

-- What a summary says of a session's row.
abbrev pub Tells : PosSessionSummary → PosSession → Type 0
Tells s r =
    (s.id ≡ r.id)
    × (s.tenant_id ≡ r.tenant_id)
    × (s.user_id ≡ r.user_id)
    × (s.device_id ≡ r.device_id)
    × (s.store_id ≡ r.store_id)
    × (s.status ≡ r.status)
    × (s.opened_at ≡ r.opened_at)
    × (s.closed_at ≡ r.closed_at)
    × (s.created_at ≡ r.created_at)
    × (s.updated_at ≡ r.updated_at)

-- How an opening that began at `db` may end.
abbrev pub Opened : Key → Instant → Key → Key → Db → Result PosSessionSummary × Db → Type 0
Opened t now user device db (ok s, db') =
    (d : PosDevice) × (r : PosSession) × (first (owned pos_device_model t (λ x. x.id == device))
        db.pos_devices
      ≡ some d)
    × (d.id ≡ device)
    × (d.status ≡ PosDeviceStatus.active)
    × IsNew t now user d r
    × Tells s r
    × (db'.pos_sessions ≡ r ∷ db.pos_sessions)
    × (count (open_on device) db.pos_sessions ≡ 0)
    × (count (open_on device) db'.pos_sessions ≡ 1)
Opened t now user device db (err e, db') = db'.pos_sessions ≡ db.pos_sessions

active_status : (st : PosDeviceStatus) → is_active st ≡ true → st ≡ PosDeviceStatus.active
active_status PosDeviceStatus.active h = refl
active_status PosDeviceStatus.suspended h = ground arith
active_status PosDeviceStatus.retired h = ground arith

no_clash : (rs : List PosSession) → pos_session_check rs ≡ none → clash sessions_clash rs ≡ false
unfolding pos_session_check
no_clash rs h = ground arith

module _ ⦃prisma : Prisma⦄ (t : Key) (now : Instant) (user device : Key) where
  -- An opening that succeeds adds one session and returns its summary: it is open, of the tenant
  -- and the user of the request, on the device, which is an active one of the tenant, and in the
  -- device's store, opened now. It is the one open session of the device, which had none before, of
  -- any tenant. An opening that fails changes no session.
  pub open_session-Opened :
      (db : Db) → Opened t now user device db (open_session user device (within t now) db)
  unfolding open_session fresh_id
  open_session-Opened db =
      let read = find_unique_eq pos_device_model refl t now db (λ r. r.id == device) in
      elim (first_cases (owned pos_device_model t (λ r. r.id == device)) db.pos_devices) [
        | inl (none_there, k) ↦ ground arith
        | inr (r, e, i, k) ↦ elim (Bool-cases (is_active r.status)) [
          | inr off ↦ ground arith
          | inl on ↦
              let row : PosSession = record {
                id = prisma.new_id db.generated;
                tenant_id = t;
                device_id = r.id;
                store_id = r.store_id;
                user_id = user;
                status = PosSessionStatus.opened;
                opened_at = now;
                closed_at = none;
                created_at = now;
                updated_at = now;
              } in
              elim (create_cases pos_session_model refl t now
                (record db { generated = suc db.generated }) row) [
                  | inl (made, checked) ↦
                      let out : open_session user device (within t now) db ≡ (
                        ok (to_summary row),
                        record db {
                          pos_sessions = row ∷ db.pos_sessions;
                          generated = suc db.generated;
                        },
                      ) =
                        ground arith in
                      let same : r.id ≡ device = ground arith in
                      let single =
                        clash-open_on device (row ∷ db.pos_sessions)
                          (no_clash (row ∷ db.pos_sessions) checked) in
                      subst (Opened t now user device db) (sym out) (
                        r,
                        row,
                        e,
                        same,
                        active_status r.status on,
                        (refl, refl, refl, refl, refl, refl, refl),
                        (refl, refl, refl, refl, refl, refl, refl, refl, refl, refl),
                        refl,
                        ground arith,
                        ground arith,
                      )
                  | inr (x, failed, checked) ↦ ground arith
                ]
        ]
      ]
