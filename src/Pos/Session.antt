-- ===== src/Pos/Session.antt =====
-- src/pos/pos-session.service.ts: a cashier's shift on a device.
use business_platform.Prelude.{
  Bool, Option, count, false, if◌then◌else◌, none, not, some, true, ◌&&◌, ◌==◌,
}
use business_platform.Prisma.{Prisma, p2002}
use business_platform.Schema.{Key, Instant, PosDeviceStatus, PosSession, PosSessionStatus}
use business_platform.Platform.{
  Error, database, not_found, conflict, device_not_found, device_not_active, session_not_found,
  already_open, not_open, Action, pure, throw, or_throw, throw_if, catch, ◌>>=◌, ◌>>◌,
  require_tenant_id, current_time, find_unique, create, update_many, fresh_id, pos_device_model,
  pos_session_model,
}
use business_platform.Platform.Constraints.{is_opened}

pub record PosSessionSummary : Type 0 where
  pub id : Key
  pub tenant_id : Key
  pub device_id : Key
  pub store_id : Key
  pub user_id : Key
  pub status : PosSessionStatus
  pub opened_at : Instant
  pub closed_at : Option Instant
  pub created_at : Instant
  pub updated_at : Instant

abbrev pub to_summary : PosSession → PosSessionSummary
to_summary s = record {
  id = s.id;
  tenant_id = s.tenant_id;
  device_id = s.device_id;
  store_id = s.store_id;
  user_id = s.user_id;
  status = s.status;
  opened_at = s.opened_at;
  closed_at = s.closed_at;
  created_at = s.created_at;
  updated_at = s.updated_at;
}

abbrev pub is_active : PosDeviceStatus → Bool
is_active PosDeviceStatus.active = true
is_active _ = false

-- The handler of `openSession`.
abbrev pub open_handler : {A : Type 0} → Error → Action A
open_handler (database (p2002 target)) = throw (conflict already_open)
open_handler e = throw e

module _ ⦃prisma : Prisma⦄ where
  unfoldable pub open_session : Key → Key → Action PosSessionSummary
  open_session user_id device_id = do
    tenant_id ← require_tenant_id
    found ← find_unique pos_device_model (λ r. r.id == device_id)
    device ← or_throw found (not_found device_not_found)
    throw_if (not (is_active device.status)) (conflict device_not_active)
    id ← fresh_id
    now ← current_time
    session ←
        catch
          (create pos_session_model record {
            id = id;
            tenant_id = tenant_id;
            device_id = device.id;
            store_id = device.store_id;
            user_id = user_id;
            status = PosSessionStatus.opened;
            opened_at = now;
            closed_at = none;
            created_at = now;
            updated_at = now;
          })
          open_handler
    pure (to_summary session)

  unfoldable pub find_session : Key → Action (Option PosSession)
  find_session id = find_unique pos_session_model (λ r. r.id == id)

  unfoldable pub get_session : Key → Action PosSessionSummary
  unfolding find_session
  get_session id = do
    require_tenant_id
    found ← find_session id
    session ← or_throw found (not_found session_not_found)
    pure (to_summary session)

  -- Which error a close that changed no row is: 404 for an unknown session, else 409.
  unfoldable pub refuse_close : Key → Action PosSessionSummary
  unfolding find_session
  refuse_close id = do
    found ← find_session id
    or_throw found (not_found session_not_found)
    throw (conflict not_open)

  unfoldable pub close_session : Key → Action PosSessionSummary
  unfolding find_session refuse_close
  close_session id = do
    require_tenant_id
    now ← current_time
    count ←
        update_many pos_session_model (λ r. r.id == id && is_opened r.status)
          (λ r. record r { status = PosSessionStatus.closed; closed_at = some now })
    if count == 0 then refuse_close id else (do
      found ← find_session id
      fresh ← or_throw found (not_found session_not_found)
      pure (to_summary fresh))
