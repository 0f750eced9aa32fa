-- ===== src/Pos/Watermark.antt =====
-- That `pullFeed` of src/pos/pos-sync.service.ts loses no event of the feed and repeats none.
use business_platform.Prelude.{
  ℕ, zero, suc, ◌+◌, ◌≤◌, ◌<◌, Bool, List, [], ◌∷◌, map, length, take, total, count, sum_of,
  IsOrdered, ltb, if◌then◌else◌, ◌&&◌, ◌==◌, ◌≡◌, refl, arith, sym, ◌∙◌, subst,
}
use business_platform.Prisma.{Prisma}
use business_platform.Schema.{Db, Key, Instant, PosFeedEvent}
use business_platform.Platform.{Result, ok, err, within, pos_feed_event_model}
use business_platform.Platform.Facts.{find_many_by_eq}
use business_platform.Pos.Feed.{
  FeedEntry, FeedPage, to_entry, to_page, last_seq, feed_page, pull_feed,
}

-- Sequence numbers that rise from `b` on.
abbrev Rises : ℕ → List PosFeedEvent → Type 0
Rises b [] = Unit
Rises b (e ∷ es) = (b < e.feed_seq) × Rises e.feed_seq es

abbrev beyond : ℕ → (PosFeedEvent → ℕ) → PosFeedEvent → ℕ
beyond n f e = if ltb n e.feed_seq then f e else 0

last_seq_ge : (b n : ℕ) (es : List PosFeedEvent) → Rises b es → b ≤ last_seq b (take n es)
last_seq_ge b zero es h = omega arith
last_seq_ge b (suc n) [] h = omega arith
last_seq_ge b (suc n) (e ∷ es) h = ground (arith, last_seq_ge e.feed_seq n es h.1)

sum_of-beyond :
    (b n : ℕ) (f : PosFeedEvent → ℕ) (es : List PosFeedEvent)
    → Rises b es
    → n ≤ b
    → sum_of (beyond n f) es ≡ sum_of f es
sum_of-beyond b n f [] h k = refl
sum_of-beyond b n f (e ∷ es) h k = ground (arith, sum_of-beyond e.feed_seq n f es h.1)

-- A page and what lies beyond its last event make up the list.
take-beyond :
    (b n : ℕ) (f : PosFeedEvent → ℕ) (es : List PosFeedEvent)
    → Rises b es
    → sum_of f (take n es) + sum_of (beyond (last_seq b (take n es)) f) es ≡ sum_of f es
take-beyond b zero f es h = ground (arith, sum_of-beyond b b f es h)
take-beyond b (suc n) f [] h = refl
take-beyond b (suc n) f (e ∷ es) h =
    ground (arith, take-beyond e.feed_seq n f es h.1, last_seq_ge e.feed_seq n es h.1)

abbrev seq_is : ℕ → PosFeedEvent → ℕ
seq_is k e = if e.feed_seq == k then 1 else 0

abbrev up_to : ℕ → PosFeedEvent → ℕ
up_to b e = if ltb b e.feed_seq then 0 else 1

IsOrdered-Rises :
    (e : PosFeedEvent) (es : List PosFeedEvent)
    → IsOrdered (λ e'. e'.feed_seq) (e ∷ es)
    → ((k : ℕ) → sum_of (seq_is k) (e ∷ es) ≤ 1)
    → Rises e.feed_seq es
IsOrdered-Rises e [] o u = tt
IsOrdered-Rises e (e' ∷ es) o u =
    let unique = u e.feed_seq in
    (ground arith, IsOrdered-Rises e' es o.1 (λ k. let once = u k in ground (arith, once)))

-- An ordered list without repetition, all beyond `b`, rises.
distinct-Rises :
    (b : ℕ) (es : List PosFeedEvent)
    → IsOrdered (λ e. e.feed_seq) es
    → ((k : ℕ) → sum_of (seq_is k) es ≤ 1)
    → sum_of (up_to b) es ≡ 0
    → Rises b es
distinct-Rises b [] o u a = tt
distinct-Rises b (e ∷ es) o u a = (ground arith, IsOrdered-Rises e es o u)

length-map-take : (n : ℕ) (es : List PosFeedEvent) → length (map to_entry (take n es)) ≤ n
length-map-take zero es = omega arith
length-map-take (suc n) [] = omega arith
length-map-take (suc n) (e ∷ es) = ground (arith, length-map-take n es)

sum_of-map :
    (f : FeedEntry → ℕ) (es : List PosFeedEvent)
    → sum_of f (map to_entry es) ≡ sum_of (λ e. f (to_entry e)) es
sum_of-map f [] = refl
sum_of-map f (e ∷ es) = ground (arith, sum_of-map f es)

-- The events of tenant `t` beyond a cursor.
abbrev pub unread : Key → ℕ → PosFeedEvent → Bool
unread t since e = ltb since e.feed_seq && e.tenant_id == t

total-unread :
    (t b n : ℕ) (f : PosFeedEvent → ℕ) (es : List PosFeedEvent)
    → b ≤ n
    → total (unread t b) (beyond n f) es ≡ total (unread t n) f es
total-unread t b n f [] h = refl
total-unread t b n f (e ∷ es) h = ground (arith, total-unread t b n f es h)

-- `PosFeedEvent_tenantId_feedSeq_key`: no number comes twice in a tenant.
abbrev pub HasDistinctSeqs : Key → Db → Type 0
HasDistinctSeqs t db =
    (k : ℕ) → count (λ e. e.feed_seq == k && e.tenant_id == t) db.pos_feed_events ≤ 1

total-seq_is :
    (t since k : ℕ) (es : List PosFeedEvent)
    → total (unread t since) (seq_is k) es ≤ count (λ e. e.feed_seq == k && e.tenant_id == t) es
total-seq_is t since k [] = omega arith
total-seq_is t since k (e ∷ es) = ground (arith, total-seq_is t since k es)

total-up_to : (t since : ℕ) (es : List PosFeedEvent) → total (unread t since) (up_to since) es ≡ 0
total-up_to t since [] = refl
total-up_to t since (e ∷ es) = ground (arith, total-up_to t since es)

-- A page of at most 100 events, and what it leaves.
abbrev pub Pulls : Key → ℕ → Db → Result FeedPage × Db → Type 0
Pulls t since db (err e, db') = ⊥
Pulls t since db (ok page, db') =
    (length page.entries ≤ 100)
    × (since ≤ page.next_cursor)
    × ((f : FeedEntry → ℕ)
        → sum_of f page.entries
            + total (unread t page.next_cursor) (λ e. f (to_entry e)) db.pos_feed_events
          ≡ total (unread t since) (λ e. f (to_entry e)) db.pos_feed_events)
    × (db' ≡ db)

module _ ⦃prisma : Prisma⦄ (t : Key) (since : ℕ) (db : Db) (distinct : HasDistinctSeqs t db) where
  -- The events that the query finds.
  abbrev found : List PosFeedEvent
  found = prisma.find_many_by PosFeedEvent (λ e. e.feed_seq) (unread t since) db.pos_feed_events

  found-total :
      (f : PosFeedEvent → ℕ) → sum_of f found ≡ total (unread t since) f db.pos_feed_events
  found-total f =
      prisma.find_many_by_total PosFeedEvent (λ e. e.feed_seq) (unread t since) f db.pos_feed_events

  found-Rises : Rises since found
  found-Rises =
      distinct-Rises since found
        (prisma.find_many_by_ordered PosFeedEvent (λ e. e.feed_seq) (unread t since)
          db.pos_feed_events)
        (λ k.
          omega
            (arith, found-total (seq_is k), total-seq_is t since k db.pos_feed_events, distinct k))
        (found-total (up_to since) ∙ total-up_to t since db.pos_feed_events)

  -- What a page leaves is what lies beyond its cursor.
  page-leaves :
      (f : PosFeedEvent → ℕ)
      → sum_of f (take feed_page found)
          + total (unread t (last_seq since (take feed_page found))) f db.pos_feed_events
        ≡ total (unread t since) f db.pos_feed_events
  page-leaves f =
      let next = last_seq since (take feed_page found) in
      omega (
        arith,
        take-beyond since feed_page f found found-Rises,
        found-total f,
        found-total (beyond next f),
        total-unread t since next f db.pos_feed_events
            (last_seq_ge since feed_page found found-Rises),
      )

  -- Where the sequence numbers of a tenant are distinct, pulling its feed returns at most 100
  -- events, and the events of the page and the events beyond the new cursor are together the
  -- events beyond the old one, each as often: a device that pulls again and again misses none and
  -- gets none twice. The cursor never goes back, and the database stays as it is.
  pub pull_feed-Pulls : (now : Instant) → Pulls t since db (pull_feed since (within t now) db)
  unfolding pull_feed
  pull_feed-Pulls now =
      let out : pull_feed since (within t now) db
          ≡ (ok (to_page since (take feed_page found)), db) =
        ground (
          arith,
          find_many_by_eq pos_feed_event_model refl t now db (λ e. e.feed_seq)
              λ (e : PosFeedEvent). ltb since e.feed_seq,
        ) in
      subst (Pulls t since db) (sym out) (
        length-map-take feed_page found,
        last_seq_ge since feed_page found found-Rises,
        (λ f. rw (sum_of-map f (take feed_page found)) (page-leaves λ e. f (to_entry e))),
        refl,
      )
