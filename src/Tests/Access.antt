-- ===== src/Tests/Access.antt =====
-- The theorems on permissions and on carts, at the shop.
use business_platform.Prelude.{[], count, refl, some, ◌==◌, ◌∷◌, ◌≡◌}
use business_platform.Platform.{within}
use business_platform.Rbac.Catalog.{PermissionKey, code, permission_definitions}
use business_platform.Rbac.Permission.{Mode, assert_permissions}
use business_platform.Rbac.Grants.{Members, assert_permissions-Members}
use business_platform.Cart.Editing.{AddCartItemDto, merge_line}
use business_platform.Cart.Merging.{Adds, merge_line-Adds}
use business_platform.Tests.Memory.{in_memory}
use business_platform.Tests.Shop.{shop}

assert_permissions-Members_example : Members 7 3 shop (
    assert_permissions
      (some [])
      3
      (record { mode = Mode.any; permissions = PermissionKey.pos_create ∷ [] })
      (within 7 200)
      shop)
assert_permissions-Members_example =
    assert_permissions-Members 7 200 (some []) 3 refl Mode.any PermissionKey.pos_create [] shop

defined_once : count (λ d. code d.key == code PermissionKey.pos_create) permission_definitions ≡ 1
unfolding permission_definitions code
defined_once = refl

-- Three more units of variant 21, of which the cart holds one.
abbrev three_more : AddCartItemDto
three_more = record { variant_id = 21; quantity = 3 }

merge_line-Adds_example :
    Adds 7 75 21 3 7 75 21 shop (merge_line 7 75 three_more (within 7 200) shop)
merge_line-Adds_example = merge_line-Adds 7 200 75 three_more 7 75 21 shop refl
