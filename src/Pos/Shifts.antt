-- ===== src/Pos/Shifts.antt =====
-- The life of a cashier session, and the one open session of a device.
use business_platform.Prelude.{
  Bool, List, [], arith, count, false, first, first_cases, inl, inr, none, refl, set_where,
  set_where-none, some, true, ◌&&◌, ◌==◌, ◌∷◌, ◌≡◌, ◌≤◌,
}
use business_platform.Prisma.{Prisma}
use business_platform.Schema.{Db, Key, Instant, PosSession, PosSessionStatus}
use business_platform.Platform.{ok, err, conflict, not_open, within, pos_session_model}
use business_platform.Platform.Constraints.{
  pos_session_check, is_opened, clash, some_row, sessions_clash,
}
use business_platform.Platform.Facts.{
  owned, owned_values, find_unique_eq, update_many_cases, update_many_eq,
}
use business_platform.Pos.Session.{PosSessionSummary, find_session, refuse_close, close_session}

-- The open sessions of a device.
abbrev pub open_on : Key → PosSession → Bool
open_on d s = s.device_id == d && is_opened s.status

some_row-none :
    (x : PosSession) (d : Key) (rs : List PosSession)
    → open_on d x ≡ true
    → some_row (sessions_clash x) rs ≡ false
    → count (open_on d) rs ≡ 0
some_row-none x d [] h e = refl
some_row-none x d (r ∷ rs) h e = ground (arith, some_row-none x d rs h)

-- The partial unique index allows a device one open session.
pub clash-open_on :
    (d : Key) (rs : List PosSession) → clash sessions_clash rs ≡ false → count (open_on d) rs ≤ 1
clash-open_on d [] h = omega arith
clash-open_on d (r ∷ rs) h = ground (arith, some_row-none r d rs, clash-open_on d rs)

module _ ⦃prisma : Prisma⦄ (t : Key) (now later : Instant) (id : Key) where
  -- After a close no session of that id is open, so a second close changes no row.
  closed_rows :
      (rs : List PosSession)
      → count (owned pos_session_model t (λ r. r.id == id && is_opened r.status)) (
          set_where
            (owned pos_session_model t (λ r. r.id == id && is_opened r.status))
            (owned_values pos_session_model t now
              (λ r. record r { status = PosSessionStatus.closed; closed_at = some now }))
            rs)
        ≡ 0
  closed_rows [] = refl
  closed_rows (r ∷ rs) = ground (arith, closed_rows rs)

  -- The open session `id` of the tenant.
  abbrev open_session_row : PosSession → Bool
  open_session_row = owned pos_session_model t (λ r. r.id == id && is_opened r.status)

  abbrev session_row : PosSession → Bool
  session_row = owned pos_session_model t (λ r. r.id == id)

  -- What a close that succeeded leaves behind.
  abbrev LeftClosed : Db → Type 0
  LeftClosed db =
      (pos_session_check db.pos_sessions ≡ none)
      × (count open_session_row db.pos_sessions ≡ 0)
      × ((r : PosSession) × (first session_row db.pos_sessions ≡ some r))

  abbrev closed_table : Db → List PosSession
  closed_table db =
      set_where open_session_row
        (owned_values pos_session_model t now
          (λ r. record r { status = PosSessionStatus.closed; closed_at = some now }))
        db.pos_sessions

  left_closed :
      (db : Db) {s : PosSessionSummary} {db' : Db}
      → close_session id (within t now) db ≡ (ok s, db')
      → LeftClosed db'
  unfolding close_session find_session refuse_close
  left_closed db {s} {db'} h =
      elim (update_many_cases pos_session_model refl t now db
        (λ r. r.id == id && is_opened r.status)
        (λ r. record r { status = PosSessionStatus.closed; closed_at = some now })) [
          | inr (x, e) ↦ ground arith
          | inl (e, k) ↦ ground (
            arith,
            find_unique_eq pos_session_model refl t now
                (record db { pos_sessions = closed_table db }) (λ r. r.id == id),
            first_cases session_row (closed_table db),
            closed_rows db.pos_sessions,
          )
        ]

  refused_again :
      (db : Db)
      → LeftClosed db
      → close_session id (within t later) db ≡ (err (conflict not_open), db)
  unfolding close_session find_session refuse_close
  refused_again db (k, none_open, found) =
      let f =
        λ (r : PosSession). record r { status = PosSessionStatus.closed; closed_at = some later } in
      let unchanged =
        set_where-none open_session_row (owned_values pos_session_model t later f) db.pos_sessions
          none_open in
      ground (
        arith,
        unchanged,
        update_many_eq pos_session_model refl t later db (λ r. r.id == id && is_opened r.status) f
            (rw unchanged k),
        find_unique_eq pos_session_model refl t later db (λ r. r.id == id),
      )

  -- Closing a session that was just closed is refused with a conflict and changes nothing: a
  -- close is never repeated.
  pub close_session-twice :
      (db : Db) {s : PosSessionSummary} {db' : Db}
      → close_session id (within t now) db ≡ (ok s, db')
      → close_session id (within t later) db' ≡ (err (conflict not_open), db')
  close_session-twice db {s} {db'} first_close = refused_again db' (left_closed db first_close)
