-- ===== src/Inventory/Stock.antt =====
-- The abstract view of the inventory: how much of a variant a pool holds.
use business_platform.Prelude.{
  none, Option, ℕ, ◌+◌, ◌*◌, ◌≤◌, ◌≡◌, refl, Bool, true, false, ◌&&◌, ◌==◌, List, [], ◌∷◌, arith,
  same_option, same_option→eq, same_option_refl, count, total, set_where, total-set_where,
  total-set_where_outside, ℤ, pos_part, neg_part,
}
use business_platform.Schema.{Db, Key, Instant, Inventory}
use business_platform.Platform.{inventory_model}
use business_platform.Platform.Constraints.{inventory_check, clash, some_row, same_pool}
use business_platform.Platform.Facts.{owned, owned_values}
use business_platform.Inventory.{covers, increment}

-- The pool of a variant in a store, or the global one.
abbrev pub pool_row : Option Key → Key → Inventory → Bool
pool_row s v r = r.variant_id == v && same_option r.store_id s

-- The rows of one pool of tenant `t`.
abbrev pub pool : Key → Option Key → Key → Inventory → Bool
pool t s v = owned inventory_model t (pool_row s v)

abbrev pub on_hand : Inventory → ℕ
on_hand r = r.quantity_on_hand

abbrev pub stock : Key → Option Key → Key → Db → ℕ
stock t s v db = total (pool t s v) on_hand db.inventories

-- Two locators name the same pool.
abbrev pub same_locator : Key → Option Key → Key → Key → Option Key → Key → Bool
same_locator t s v t' s' v' = (v == v' && same_option s s') && t == t'

-- What a guarded increment selects and writes.
abbrev pub covered : Key → Option Key → Key → ℤ → Inventory → Bool
covered t s v delta = owned inventory_model t (λ r. pool_row s v r && covers delta r)

abbrev pub incremented : Key → Instant → ℤ → Inventory → Inventory
incremented t now delta = owned_values inventory_model t now (increment delta)

module _ (t : Key) (now : Instant) (s : Option Key) (v : Key) (delta : ℤ) (t' : Key)
    (s' : Option Key) (v' : Key) where
  module _ (same : same_locator t s v t' s' v' ≡ true) where
    incremented_row :
        (r : Inventory)
        → covered t s v delta r ≡ true
        → (pool t' s' v' r ≡ true)
          × (pool t' s' v' (incremented t now delta r) ≡ true)
          × (on_hand (incremented t now delta r) + neg_part delta ≡ on_hand r + pos_part delta)
    incremented_row r h =
        ground (arith, same_option→eq r.store_id s, same_option→eq s s', same_option_refl s')

    pub stock-increment :
        (rs : List Inventory)
        → total
              (pool t' s' v')
              on_hand
              (set_where (covered t s v delta) (incremented t now delta) rs)
            + count (covered t s v delta) rs * neg_part delta
          ≡ total (pool t' s' v') on_hand rs + count (covered t s v delta) rs * pos_part delta
    stock-increment =
        total-set_where (pool t' s' v') (covered t s v delta) (incremented t now delta) on_hand
          (pos_part delta) (neg_part delta) incremented_row

  module _ (apart : same_locator t s v t' s' v' ≡ false) where
    incremented_outside :
        (r : Inventory)
        → covered t s v delta r ≡ true
        → (pool t' s' v' r ≡ false) × (pool t' s' v' (incremented t now delta r) ≡ false)
    incremented_outside r h = ground (arith, same_option→eq r.store_id s)

    pub stock-increment_other :
        (rs : List Inventory)
        → total
            (pool t' s' v')
            on_hand
            (set_where (covered t s v delta) (incremented t now delta) rs)
          ≡ total (pool t' s' v') on_hand rs
    stock-increment_other =
        total-set_where_outside (pool t' s' v') (covered t s v delta) (incremented t now delta)
          on_hand incremented_outside

-- The unique indexes keep one row for a pool.
some_row-none :
    (x : Inventory) (t : Key) (s : Option Key) (v : Key) (rs : List Inventory)
    → pool t s v x ≡ true
    → some_row (same_pool x) rs ≡ false
    → count (pool t s v) rs ≡ 0
some_row-none x t s v [] h e = refl
some_row-none x t s v (r ∷ rs) h e = ground (
  arith,
  same_option→eq x.store_id s,
  same_option→eq r.store_id s,
  same_option_refl s,
  some_row-none x t s v rs h,
)

pub pool_unique :
    (t : Key) (s : Option Key) (v : Key) (rs : List Inventory)
    → clash same_pool rs ≡ false
    → count (pool t s v) rs ≤ 1
pool_unique t s v [] h = omega arith
pool_unique t s v (r ∷ rs) h = ground (arith, some_row-none r t s v rs, pool_unique t s v rs)

-- The stored pools satisfy the constraints of their table.
abbrev pub IsConsistent : Db → Type 0
IsConsistent db = inventory_check db.inventories ≡ none

pub consistent_unique : (db : Db) → IsConsistent db → clash same_pool db.inventories ≡ false
unfolding inventory_check
consistent_unique db h = ground arith
