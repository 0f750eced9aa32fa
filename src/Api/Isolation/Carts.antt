-- ===== src/Api/Isolation/Carts.antt =====
-- The isolation of the requests to src/cart/cart.service.ts.
use business_platform.Prelude.{List, [], ℕ, ◌∷◌}
use business_platform.Prisma.{Prisma, p2002}
use business_platform.Schema.{Key, Instant, Cart, CartItem}
use business_platform.Platform.{Error, database, within}
use business_platform.Platform.Frames.{Keeps, Keeps-throw}
use business_platform.Platform.Isolation.{foreign, isolation}
use business_platform.Cart.Summary.{enrich_cart, enrich_items, price_items}
use business_platform.Cart.Editing.{
  AddCartItemDto, UpdateCartItemDto, find_open_cart, cart_handler, create_cart, get_or_create_cart,
  get_cart, fresh_summary, find_line, increment, create_line, line_handler, merge_line, add_item,
  own_line, update_item, remove_item,
}

module _ ⦃prisma : Prisma⦄ (t : Key) (now : Instant) where
  enrich_items-isolated :
      (cart : Cart) (items : List CartItem)
      → Keeps (within t now) (foreign t) (enrich_items cart items)
  unfolding price_items
  enrich_items-isolated cart [] = search isolation
  enrich_items-isolated cart (it ∷ its) = search isolation

  enrich_cart-isolated : (cart : Cart) → Keeps (within t now) (foreign t) (enrich_cart cart)
  unfolding enrich_cart
  enrich_cart-isolated cart = search (isolation, enrich_items-isolated)

  cart_handler-isolated :
      (user : Key) (e : Error) → Keeps (within t now) (foreign t) (cart_handler user e)
  unfolding cart_handler find_open_cart
  cart_handler-isolated user (database (p2002 target)) = search isolation
  cart_handler-isolated user e = Keeps-throw e

  get_or_create_cart-isolated :
      (user : Key) → Keeps (within t now) (foreign t) (get_or_create_cart user)
  unfolding get_or_create_cart find_open_cart create_cart
  get_or_create_cart-isolated user = search (isolation, cart_handler-isolated) depth 12

  pub get_cart-isolated : (user : Key) → Keeps (within t now) (foreign t) (get_cart user)
  unfolding get_cart
  get_cart-isolated user = search (isolation, get_or_create_cart-isolated, enrich_cart-isolated)

  fresh_summary-isolated : (id : Key) → Keeps (within t now) (foreign t) (fresh_summary id)
  unfolding fresh_summary
  fresh_summary-isolated id = search (isolation, enrich_cart-isolated)

  increment-isolated : (id : Key) (q : ℕ) → Keeps (within t now) (foreign t) (increment id q)
  unfolding increment
  increment-isolated id q = search isolation

  line_handler-isolated :
      (cart : Key) (dto : AddCartItemDto) (e : Error)
      → Keeps (within t now) (foreign t) (line_handler cart dto e)
  unfolding line_handler find_line
  line_handler-isolated cart dto (database (p2002 target)) = search (isolation, increment-isolated)
  line_handler-isolated cart dto e = Keeps-throw e

  merge_line-isolated :
      (tenant cart : Key) (dto : AddCartItemDto)
      → Keeps (within t now) (foreign t) (merge_line tenant cart dto)
  unfolding merge_line find_line create_line
  merge_line-isolated tenant cart dto =
      search (isolation, increment-isolated, line_handler-isolated) depth 12

  pub add_item-isolated :
      (user : Key) (dto : AddCartItemDto) → Keeps (within t now) (foreign t) (add_item user dto)
  unfolding add_item
  add_item-isolated user dto =
      search (isolation, get_or_create_cart-isolated, merge_line-isolated, fresh_summary-isolated)
        depth 12

  own_line-isolated : (cart : Cart) (id : Key) → Keeps (within t now) (foreign t) (own_line cart id)
  unfolding own_line
  own_line-isolated cart id = search isolation

  pub update_item-isolated :
      (user id : Key) (dto : UpdateCartItemDto)
      → Keeps (within t now) (foreign t) (update_item user id dto)
  unfolding update_item
  update_item-isolated user id dto =
      search (isolation, get_or_create_cart-isolated, own_line-isolated, fresh_summary-isolated)
        depth 12

  pub remove_item-isolated :
      (user id : Key) → Keeps (within t now) (foreign t) (remove_item user id)
  unfolding remove_item
  remove_item-isolated user id =
      search (isolation, get_or_create_cart-isolated, own_line-isolated, fresh_summary-isolated)
        depth 12
