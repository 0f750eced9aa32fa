-- ===== src/Platform/Frames.antt =====
-- What an action leaves alone: a view of the database that it keeps, whether it returns or throws,
-- with a rule for each form that the services are written in.
use business_platform.Prelude.{
  drop_where, Bool, List, Option, arith, false, if◌then◌else◌, inl, inr, none, refl, set_where,
  some, suc, true, ℕ, ◌∙◌, ◌∷◌, ◌≡◌,
}
use business_platform.Prisma.{Prisma, SortDirection}
use business_platform.Platform.Scoping.{is_tenant_scoped}
use business_platform.Platform.Facts.{
  owned, owned_values, delete_cases, create_cases, update_cases, update_many_cases,
}
use business_platform.Platform.Client.{
  find_unique, find_first, find_many, find_first_by, find_many_by, create, update, update_many,
  fresh_id, delete, find_related, find_page,
}
use business_platform.Platform.Models.{Model}
use business_platform.Schema.{Db, Key, Instant}
use business_platform.Platform.Effects.{
  when, if_found, within, Result, Error, Context, Action, pure, throw, or_throw, throw_if, returns,
  when_given, transaction, catch, require_tenant_id, current_time, ◌>>=◌, ◌>>◌, Result-cases,
}

pub record Keeps {V A : Type 0} (c : Context) (view : Db → V) (m : Action A) : Type 0 where
  pub apply : (db : Db) → view (m c db).1 ≡ view db

module _ {V : Type 0} {c : Context} {view : Db → V} where
  module _ {A B : Type 0} where
    pub Keeps-bind :
        {m : Action A} {f : A → Action B}
        → Keeps c view m
        → ((a : A) → Keeps c view (f a))
        → Keeps c view (m >>= f)
    Keeps-bind {m} {f} k l = record {
      apply = λ db. elim (Result-cases (m c db).0) [
        | inl (a, e) ↦ rw (e, ◌>>=◌) ((l a).apply (m c db).1 ∙ k.apply db)
        | inr (x, e) ↦ rw (e, ◌>>=◌) (k.apply db)
      ];
    }

    pub Keeps-then :
        {m : Action A} {n : Action B} → Keeps c view m → Keeps c view n → Keeps c view (m >> n)
    Keeps-then k l = Keeps-bind k (λ a. l)

  module _ {A : Type 0} where
    pub Keeps-pure : (a : A) → Keeps c view (pure a)
    Keeps-pure a = record { apply = λ db. refl }

    pub Keeps-throw : (e : Error) → Keeps c view (throw {A = A} e)
    Keeps-throw e = record { apply = λ db. refl }

    pub Keeps-returns : (r : Result A) → Keeps c view (returns r)
    Keeps-returns r = record { apply = λ db. refl }

    pub Keeps-or_throw : (o : Option A) (e : Error) → Keeps c view (or_throw o e)
    Keeps-or_throw none e = record { apply = λ db. refl }
    Keeps-or_throw (some a) e = record { apply = λ db. refl }

    pub Keeps-if :
        {m n : Action A} (b : Bool)
        → Keeps c view m
        → Keeps c view n
        → Keeps c view (if b then m else n)
    Keeps-if true k l = k
    Keeps-if false k l = l

    pub Keeps-if_found :
        {X : Type 0} {n : Action A} {f : X → Action A} (o : Option X)
        → Keeps c view n
        → ((x : X) → Keeps c view (f x))
        → Keeps c view (if_found o n f)
    Keeps-if_found none k l = k
    Keeps-if_found (some x) k l = l x

    pub Keeps-transaction : {m : Action A} → Keeps c view m → Keeps c view (transaction m)
    Keeps-transaction {m} k = record {
      apply = λ db. elim (Result-cases (m c db).0) [
        | inl (a, e) ↦ rw (e, transaction) (k.apply db)
        | inr (x, e) ↦ rw (e, transaction) (refl)
      ];
    }

    pub Keeps-catch :
        {m : Action A} {h : Error → Action A}
        → Keeps c view m
        → ((e : Error) → Keeps c view (h e))
        → Keeps c view (catch m h)
    Keeps-catch {m} {h} k l = record {
      apply = λ db. elim (Result-cases (m c db).0) [
        | inl (a, e) ↦ rw (e, catch) (k.apply db)
        | inr (x, e) ↦ rw (e, catch) ((l x).apply (m c db).1 ∙ k.apply db)
      ];
    }

  pub Keeps-throw_if : (b : Bool) (e : Error) → Keeps c view (throw_if b e)
  Keeps-throw_if true e = record { apply = λ db. refl }
  Keeps-throw_if false e = record { apply = λ db. refl }

  pub Keeps-when : {m : Action (Unit {0})} (b : Bool) → Keeps c view m → Keeps c view (when b m)
  Keeps-when true k = k
  Keeps-when false k = record { apply = λ db. refl }

  pub Keeps-when_given :
      {f : Key → Action (Unit {0})} (o : Option Key)
      → ((k : Key) → Keeps c view (f k))
      → Keeps c view (when_given o f)
  Keeps-when_given none l = record { apply = λ db. refl }
  Keeps-when_given (some k) l = l k

  pub Keeps-require_tenant_id : Keeps c view require_tenant_id
  Keeps-require_tenant_id = record { apply = λ db. ground arith }

  pub Keeps-current_time : Keeps c view current_time
  Keeps-current_time = record { apply = λ db. refl }

-- The client's reads keep everything, and its writes keep a view that does not look at the rows
-- that they write.
module _ ⦃prisma : Prisma⦄ {V Row : Type 0} {c : Context} {view : Db → V} (m : Model Row) where
  pub Keeps-find_unique : (w : Row → Bool) → Keeps c view (find_unique m w)
  unfolding find_unique
  Keeps-find_unique w = record { apply = λ db. ground arith }

  pub Keeps-find_first : (w : Row → Bool) → Keeps c view (find_first m w)
  unfolding find_first
  Keeps-find_first w = record { apply = λ db. ground arith }

  pub Keeps-find_first_by : (key : Row → ℕ) (w : Row → Bool) → Keeps c view (find_first_by m key w)
  unfolding find_first_by
  Keeps-find_first_by key w = record { apply = λ db. ground arith }

  pub Keeps-find_many : (w : Row → Bool) → Keeps c view (find_many m w)
  unfolding find_many
  Keeps-find_many w = record { apply = λ db. ground arith }

  pub Keeps-find_many_by : (key : Row → ℕ) (w : Row → Bool) → Keeps c view (find_many_by m key w)
  unfolding find_many_by
  Keeps-find_many_by key w = record { apply = λ db. ground arith }

pub Keeps-find_page :
    ⦃prisma : Prisma⦄
    → {V Row : Type 0} {c : Context} {view : Db → V} (m : Model Row) (d : SortDirection)
    → (primary : Row → ℕ) (id : Row → Key) (w : Row → Bool) (n : ℕ)
    → Keeps c view (find_page m d primary id w n)
unfolding find_page
Keeps-find_page m d primary id w n = record { apply = λ db. ground arith }

pub Keeps-find_related :
    ⦃prisma : Prisma⦄ {V Row : Type 0} {c : Context} {view : Db → V} (rows : Db → List Row)
    (w : Row → Bool)
    → Keeps c view (find_related rows w)
unfolding find_related
Keeps-find_related rows w = record { apply = λ db. refl }

module _ ⦃prisma : Prisma⦄ {V Row : Type 0} {t : Key} {now : Instant} (view : Db → V)
    (m : Model Row) (scoped : is_tenant_scoped m.name ≡ true)
    (apart : (rs : List Row) (db : Db) → view (m.with_rows rs db) ≡ view db) where
  pub Keeps-create : (r : Row) → Keeps (within t now) view (create m r)
  Keeps-create r = record {
    apply = λ db.
        ground (arith, create_cases m scoped t now db r, apart (m.with_tenant t r ∷ m.rows db) db);
  }

  pub Keeps-update : (w : Row → Bool) (f : Row → Row) → Keeps (within t now) view (update m w f)
  Keeps-update w f = record {
    apply = λ db. ground (
      arith,
      update_cases m scoped t now db w f,
      apart (set_where (owned m t w) (owned_values m t now f) (m.rows db)) db,
    );
  }

  pub Keeps-update_many :
      (w : Row → Bool) (f : Row → Row) → Keeps (within t now) view (update_many m w f)
  Keeps-update_many w f = record {
    apply = λ db. ground (
      arith,
      update_many_cases m scoped t now db w f,
      apart (set_where (owned m t w) (owned_values m t now f) (m.rows db)) db,
    );
  }

  pub Keeps-delete : (w : Row → Bool) → Keeps (within t now) view (delete m w)
  Keeps-delete w = record {
    apply = λ db.
        ground (
          arith,
          delete_cases m scoped t now db w,
          apart (drop_where (owned m t w) (m.rows db)) db,
        );
  }

-- Generating an identifier keeps a view that does not look at the counter.
pub Keeps-fresh_id :
    ⦃prisma : Prisma⦄ {V : Type 0} {c : Context} (view : Db → V)
    → ((n : ℕ) (db : Db) → view (record db { generated = n }) ≡ view db)
    → Keeps c view fresh_id
unfolding fresh_id
Keeps-fresh_id view apart = record { apply = λ db. apart (suc db.generated) db }

pub ruleset keeps = (
  Keeps-bind, Keeps-then, Keeps-pure, Keeps-throw, Keeps-returns, Keeps-or_throw, Keeps-throw_if,
  Keeps-if, Keeps-if_found, Keeps-transaction, Keeps-catch, Keeps-when, Keeps-when_given,
  Keeps-require_tenant_id, Keeps-current_time, Keeps-find_unique, Keeps-find_first,
  Keeps-find_first_by, Keeps-find_many, Keeps-find_many_by, Keeps-find_page, Keeps-find_related,
)
