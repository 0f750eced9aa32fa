-- ===== src/Cart/Editing.antt =====
-- The operations of src/cart/cart.service.ts.
use business_platform.Prelude.{ℕ, ◌+◌, Option, not, ◌&&◌, ◌==◌}
use business_platform.Prisma.{Prisma, p2002}
use business_platform.Schema.{Key, Cart, CartItem, CartStatus}
use business_platform.Platform.{
  Error, Action, pure, throw, or_throw, throw_if, if_found, catch, database, not_found, conflict,
  variant_not_found, cart_not_found, cart_item_not_found, ◌>>=◌, ◌>>◌, require_tenant_id,
  current_time, find_unique, find_first, find_first_by, create, update, delete, cascade, fresh_id,
  cart_model, cart_item_model, product_variant_model,
}
use business_platform.Order.Creating.{is_open}
use business_platform.Cart.Summary.{CartSummary, enrich_cart}

pub record AddCartItemDto : Type 0 where
  pub variant_id : Key
  pub quantity : ℕ

pub record UpdateCartItemDto : Type 0 where
  pub quantity : ℕ

module _ ⦃prisma : Prisma⦄ where
  -- The oldest open cart of the user.
  unfoldable pub find_open_cart : Key → Action (Option Cart)
  find_open_cart user_id =
      find_first_by cart_model (λ r. r.created_at) (λ r. r.user_id == user_id && is_open r.status)

  unfoldable pub cart_handler : Key → Error → Action Cart
  cart_handler user_id (database (p2002 target)) = do
    raced ← find_open_cart user_id
    or_throw raced (database (p2002 target))
  cart_handler user_id e = throw e

  unfoldable pub create_cart : Key → Key → Action Cart
  create_cart tenant_id user_id = do
    id ← fresh_id
    now ← current_time
    create cart_model record {
      id = id;
      tenant_id = tenant_id;
      user_id = user_id;
      status = CartStatus.opened;
      created_at = now;
      updated_at = now;
    }

  unfoldable pub get_or_create_cart : Key → Action Cart
  get_or_create_cart user_id = do
    existing ← find_open_cart user_id
    if_found existing
        (do
          tenant_id ← require_tenant_id
          catch (create_cart tenant_id user_id) (cart_handler user_id))
        λ cart. pure cart

  unfoldable pub get_cart : Key → Action CartSummary
  get_cart user_id = do require_tenant_id; cart ← get_or_create_cart user_id; enrich_cart cart

  -- The cart as it is after a change.
  unfoldable pub fresh_summary : Key → Action CartSummary
  fresh_summary cart_id = do
    found ← find_unique cart_model (λ r. r.id == cart_id)
    fresh ← or_throw found (not_found cart_not_found)
    enrich_cart fresh

  unfoldable pub find_line : Key → Key → Action (Option CartItem)
  find_line cart_id variant_id =
      find_first cart_item_model (λ r. r.cart_id == cart_id && r.variant_id == variant_id)

  -- `quantity: { increment: dto.quantity }`
  unfoldable pub increment : Key → ℕ → Action CartItem
  increment item_id quantity =
      update cart_item_model (λ r. r.id == item_id)
        (λ r. record r { quantity = r.quantity + quantity })

  unfoldable pub create_line : Key → Key → AddCartItemDto → Action CartItem
  create_line tenant_id cart_id dto = do
    id ← fresh_id
    now ← current_time
    create cart_item_model record {
      id = id;
      tenant_id = tenant_id;
      cart_id = cart_id;
      variant_id = dto.variant_id;
      quantity = dto.quantity;
      created_at = now;
      updated_at = now;
    }

  unfoldable pub line_handler : Key → AddCartItemDto → Error → Action CartItem
  line_handler cart_id dto (database (p2002 target)) = do
    found ← find_line cart_id dto.variant_id
    raced ← or_throw found (conflict cart_item_not_found)
    increment raced.id dto.quantity
  line_handler cart_id dto e = throw e

  -- The merge into the line of the variant, or a new line.
  unfoldable pub merge_line : Key → Key → AddCartItemDto → Action CartItem
  merge_line tenant_id cart_id dto = do
    existing ← find_line cart_id dto.variant_id
    if_found existing (catch (create_line tenant_id cart_id dto) (line_handler cart_id dto))
        λ line. increment line.id dto.quantity

  unfoldable pub add_item : Key → AddCartItemDto → Action CartSummary
  add_item user_id dto = do
    require_tenant_id
    variant ← find_unique product_variant_model (λ r. r.id == dto.variant_id)
    or_throw variant (not_found variant_not_found)
    cart ← get_or_create_cart user_id
    tenant_id ← require_tenant_id
    merge_line tenant_id cart.id dto
    fresh_summary cart.id

  -- The line, if it stands in the cart.
  unfoldable pub own_line : Cart → Key → Action CartItem
  own_line cart item_id = do
    found ← find_unique cart_item_model (λ r. r.id == item_id)
    item ← or_throw found (not_found cart_item_not_found)
    throw_if (not (item.cart_id == cart.id)) (not_found cart_item_not_found)
    pure item

  unfoldable pub update_item : Key → Key → UpdateCartItemDto → Action CartSummary
  update_item user_id item_id dto = do
    require_tenant_id
    cart ← get_or_create_cart user_id
    own_line cart item_id
    update cart_item_model (λ r. r.id == item_id) (λ r. record r { quantity = dto.quantity })
    fresh_summary cart.id

  unfoldable pub remove_item : Key → Key → Action CartSummary
  remove_item user_id item_id = do
    require_tenant_id
    cart ← get_or_create_cart user_id
    own_line cart item_id
    delete cart_item_model (λ r. r.id == item_id)
    fresh_summary cart.id

  -- The items go with the cart, by ON DELETE CASCADE.
  unfoldable pub discard_cart : Key → Action (Unit {0})
  discard_cart user_id = do
    require_tenant_id
    found ← find_first cart_model (λ r. r.user_id == user_id && is_open r.status)
    cart ← or_throw found (not_found cart_not_found)
    throw_if (not (cart.user_id == user_id)) (not_found cart_not_found)
    delete cart_model (λ r. r.id == cart.id)
    cascade cart_item_model (λ r. r.cart_id == cart.id)
