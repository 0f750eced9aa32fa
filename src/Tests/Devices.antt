-- ===== src/Tests/Devices.antt =====
-- The theorems on devices and on their feed and reports, at the shop.
use business_platform.Prelude.{refl, arith, ◌≡◌, map, select}
use business_platform.Platform.{within}
use business_platform.Pos.Device.{Transition, transition, rotate_credential, register_device}
use business_platform.Pos.Lifecycle.{Moves, transition-Moves}
use business_platform.Pos.Credentials.{
  Issued, Registered, rotate_credential-Issued, register_device-Registered,
}
use business_platform.Pos.Feed.{pull_feed}
use business_platform.Pos.Watermark.{HasDistinctSeqs, Pulls, pull_feed-Pulls}
use business_platform.Pos.Reconciliation.{project, partition_operations}
use business_platform.Pos.Reports.{
  is_rejected, is_accepted, is_unresolved, Reports, partition_operations-select,
}
use business_platform.Tests.Memory.{in_memory, numbers}
use business_platform.Tests.Shop.{shop}

transition-Moves_example :
    Moves 7 200 71 Transition.suspend shop (transition 71 Transition.suspend (within 7 200) shop)
transition-Moves_example = transition-Moves 7 200 71 Transition.suspend shop refl

rotate_credential-Issued_example : Issued 7 71 shop (rotate_credential 71 (within 7 200) shop)
rotate_credential-Issued_example = rotate_credential-Issued 7 200 71 shop

register_device-Registered_example :
    Registered 7 200
      (record { store_id = 1; name = 507 })
      shop
      (register_device (record { store_id = 1; name = 507 }) (within 7 200) shop)
register_device-Registered_example =
    register_device-Registered 7 200 (record { store_id = 1; name = 507 }) shop

shop-HasDistinctSeqs : HasDistinctSeqs 7 shop
shop-HasDistinctSeqs k = ground arith

pull_feed-Pulls_example : Pulls 7 0 shop (pull_feed 0 (within 7 200) shop)
pull_feed-Pulls_example = pull_feed-Pulls 7 0 shop shop-HasDistinctSeqs 200

partition_operations-select_example : partition_operations shop.pos_operations ≡ record {
  rejected = map project (select is_rejected shop.pos_operations);
  accepted = map project (select is_accepted shop.pos_operations);
  pending = map project (select is_unresolved shop.pos_operations);
}
partition_operations-select_example = partition_operations-select shop.pos_operations
