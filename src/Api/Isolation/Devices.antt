-- ===== src/Api/Isolation/Devices.antt =====
-- The isolation of the requests to src/pos/pos-device.service.ts.
use business_platform.Prelude.{refl}
use business_platform.Prisma.{Prisma, p2002}
use business_platform.Schema.{Key, Instant, PosDevice}
use business_platform.Platform.{Error, database, conflict, name_taken, within}
use business_platform.Platform.Frames.{Keeps, Keeps-throw}
use business_platform.Platform.Isolation.{foreign, isolation}
use business_platform.Pos.Device.{
  Crypto, CreatePosDeviceDto, UpdatePosDeviceDto, Transition, name_handler, find_device,
  require_device, register_device, get_device, update_device, transition, rotate_credential,
  create_credential_material,
}

module _ ⦃prisma : Prisma⦄ (t : Key) (now : Instant) where
  name_handler-isolated :
      (e : Error) → Keeps (within t now) (foreign t) (name_handler {A = PosDevice} e)
  name_handler-isolated (database (p2002 target)) = Keeps-throw (conflict name_taken)
  name_handler-isolated e = Keeps-throw e

  require_device-isolated : (id : Key) → Keeps (within t now) (foreign t) (require_device id)
  unfolding require_device find_device
  require_device-isolated id = search isolation

  pub get_device-isolated : (id : Key) → Keeps (within t now) (foreign t) (get_device id)
  unfolding get_device
  get_device-isolated id = search (isolation, require_device-isolated)

  pub update_device-isolated :
      (id : Key) (dto : UpdatePosDeviceDto)
      → Keeps (within t now) (foreign t) (update_device id dto)
  unfolding update_device
  update_device-isolated id dto =
      search (isolation, require_device-isolated, name_handler-isolated) depth 12

  pub transition-isolated :
      (id : Key) (action : Transition) → Keeps (within t now) (foreign t) (transition id action)
  unfolding transition
  transition-isolated id action = search (isolation, require_device-isolated) depth 12

module _ ⦃prisma : Prisma⦄ ⦃crypto : Crypto⦄ (t : Key) (now : Instant) where
  create_credential_material-isolated : Keeps (within t now) (foreign t) create_credential_material
  unfolding create_credential_material
  create_credential_material-isolated = record { apply = λ db. refl }

  pub register_device-isolated :
      (dto : CreatePosDeviceDto) → Keeps (within t now) (foreign t) (register_device dto)
  unfolding register_device
  register_device-isolated dto =
      search (isolation, create_credential_material-isolated, name_handler-isolated) depth 20

  pub rotate_credential-isolated :
      (id : Key) → Keeps (within t now) (foreign t) (rotate_credential id)
  unfolding rotate_credential
  rotate_credential-isolated id =
      search (isolation, create_credential_material-isolated, require_device-isolated) depth 20
