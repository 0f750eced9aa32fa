-- ===== src/Pos/Feed.antt =====
-- `pullFeed` of src/pos/pos-sync.service.ts: the next page of the tenant's change feed.
use business_platform.Prelude.{ℕ, List, [], ◌∷◌, map, take, ltb}
use business_platform.Prisma.{Prisma}
use business_platform.Schema.{Key, PosFeedEvent, PosFeedKind}
use business_platform.Platform.{
  Action, pure, ◌>>=◌, ◌>>◌, require_tenant_id, find_many_by, pos_feed_event_model,
}

pub record FeedEntry : Type 0 where
  pub feed_seq : ℕ
  pub kind : PosFeedKind
  pub entity_id : Key

pub record FeedPage : Type 0 where
  pub entries : List FeedEntry
  pub next_cursor : ℕ

abbrev pub feed_page : ℕ
feed_page = 100

abbrev pub to_entry : PosFeedEvent → FeedEntry
to_entry e = record { feed_seq = e.feed_seq; kind = e.kind; entity_id = e.entity_id }

-- `entries.length > 0 ? entries[entries.length - 1].feedSeq : since`
abbrev pub last_seq : ℕ → List PosFeedEvent → ℕ
last_seq since [] = since
last_seq since (e ∷ es) = last_seq e.feed_seq es

abbrev pub to_page : ℕ → List PosFeedEvent → FeedPage
to_page since entries = record {
  entries = map to_entry entries;
  next_cursor = last_seq since entries;
}

module _ ⦃prisma : Prisma⦄ where
  -- `since` is a natural number, which the guard of the method asks for.
  unfoldable pub pull_feed : ℕ → Action FeedPage
  pull_feed since = do
    require_tenant_id
    found ← find_many_by pos_feed_event_model (λ r. r.feed_seq) (λ r. ltb since r.feed_seq)
    pure (to_page since (take feed_page found))
