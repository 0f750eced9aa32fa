-- ===== src/Tests/Lists.antt =====
-- The theorems on pages and cursors, at the prices of the shop.
use business_platform.Prisma.{SortDirection}
use business_platform.Prelude.{take, ap, arith, inl, inr}
use business_platform.Schema.{Price}
use business_platform.Pagination.{CursorExpectation, fetch_page}
use business_platform.Pagination.Pages.{IsListed, Splits, fetch_page-Splits}
use business_platform.Tests.Shop.{shop}

prices-IsListed :
    IsListed (λ (p : Price). p.amount_minor) (λ p. p.id) SortDirection.desc shop.prices
prices-IsListed = (
  λ b i. elim i [
    | inl e ↦ ground (arith, ap (λ (p : Price). p.amount_minor) e)
    | inr j ↦ elim j [ ]
  ],
  ((λ b i. elim i [ ]), tt),
)

-- The dearest price alone, and the page after it.
fetch_page-Splits_example :
    Splits
      (λ (p : Price). p.amount_minor)
      (λ p. p.id)
      SortDirection.desc
      1
      shop.prices
      (fetch_page (take 2 shop.prices) 1)
fetch_page-Splits_example =
    fetch_page-Splits (λ (p : Price). p.amount_minor) (λ p. p.id) SortDirection.desc 0 shop.prices
      prices-IsListed

abbrev newest_first : CursorExpectation
newest_first = record { sort_by = 3; direction = SortDirection.desc; fingerprint = 77 }
