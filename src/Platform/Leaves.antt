-- ===== src/Platform/Leaves.antt =====
-- What a request leaves behind, step by step.
use business_platform.Order.Frames.{everything}
use business_platform.Platform.Frames.{Keeps}
use business_platform.Prelude.{arith, inl, inr, subst, sym, ◌≡◌}
use business_platform.Schema.{Db}
use business_platform.Platform.{
  ok, err, Action, Context, Error, Outcome-cases, catch, transaction, ◌>>=◌, Result-cases, ◌>>◌,
}

-- Run on the database `db`, the action leaves one that fits.
pub record Leaves {A : Type 0} (c : Context) (fits : Db → Type 0) (db : Db) (m : Action A)
    : Type 0 where
  pub apply : fits (m c db).1

module _ {c : Context} {fits : Db → Type 0} {db : Db} where
  -- A read, and what follows it with what it found.
  pub Leaves-bind :
      {A B : Type 0} {m : Action A} {f : A → Action B}
      → fits db
      → Keeps c everything m
      → ((a : A) → m c db ≡ (ok a, db) → Leaves c fits db (f a))
      → Leaves c fits db (m >>= f)
  Leaves-bind {m} {f} here reads next =
      let same = reads.apply db in
      record {
        apply = elim (Outcome-cases (m c db)) [
          | inl (a, db', e) ↦
              let found : m c db ≡ (ok a, db) = ground arith in
              let out : (m >>= f) c db ≡ f a c db = ground arith in
              subst (λ o. fits o.1) (sym out) (next a found).apply
          | inr (x, db', e) ↦
              let out : (m >>= f) c db ≡ (err x, db) = ground arith in
              subst (λ o. fits o.1) (sym out) here
        ];
      }

  pub Leaves-then :
      {A B : Type 0} {m : Action A} {n : Action B}
      → fits db
      → Keeps c everything m
      → Leaves c fits db n
      → Leaves c fits db (m >> n)
  Leaves-then here reads next = Leaves-bind here reads (λ a e. next)

  -- A change, and reads after it.
  pub Leaves-before :
      {A B : Type 0} {m : Action A} {f : A → Action B}
      → Leaves c fits db m
      → ((a : A) → Keeps c everything (f a))
      → Leaves c fits db (m >>= f)
  Leaves-before {m} {f} leaves reads =
      let left = leaves.apply in
      record {
        apply = elim (Result-cases (m c db).0) [
          | inl (a, e) ↦ let same = (reads a).apply (m c db).1 in rw (e, ◌>>=◌, same) left
          | inr (x, e) ↦ rw (e, ◌>>=◌) left
        ];
      }

  -- A handler that writes nothing.
  pub Leaves-handled :
      {A : Type 0} (m : Action A) {h : Error → Action A}
      → Leaves c fits db m
      → ((e : Error) → Keeps c everything (h e))
      → Leaves c fits db (catch m h)
  Leaves-handled m {h} leaves reads =
      let left = leaves.apply in
      record {
        apply = elim (Result-cases (m c db).0) [
          | inl (a, e) ↦
              let out : (catch m h c db).1 ≡ (m c db).1 = ground arith in subst fits (sym out) left
          | inr (x, e) ↦
              let kept = (reads x).apply (m c db).1 in
              let out : (catch m h c db).1 ≡ (m c db).1 = ground arith in subst fits (sym out) left
        ];
      }

  -- A transaction with a handler that writes nothing.
  pub Leaves-catch :
      {A : Type 0} (m : Action A) {h : Error → Action A}
      → fits db
      → ((e : Error) → Keeps c everything (h e))
      → ((a : A) (db' : Db) → m c db ≡ (ok a, db') → fits db')
      → Leaves c fits db (catch (transaction m) h)
  Leaves-catch m {h} here reads done = record {
    apply = elim (Outcome-cases (m c db)) [
      | inl (a, db', e) ↦
          let out : (catch (transaction m) h c db).1 ≡ db' = ground arith in
          subst fits (sym out) (done a db' e)
      | inr (x, db', e) ↦
          let kept = (reads x).apply db in
          let out : (catch (transaction m) h c db).1 ≡ db = ground arith in
          subst fits (sym out) here
    ];
  }

  pub Leaves-transaction :
      {A B : Type 0} (m : Action A) {f : A → Action B}
      → fits db
      → ((a : A) → Keeps c everything (f a))
      → ((a : A) (db' : Db) → m c db ≡ (ok a, db') → fits db')
      → Leaves c fits db (transaction m >>= f)
  Leaves-transaction m {f} here reads done = record {
    apply = elim (Outcome-cases (m c db)) [
      | inl (a, db', e) ↦
          let kept = (reads a).apply db' in
          let out : ((transaction m >>= f) c db).1 ≡ db' = ground arith in
          subst fits (sym out) (done a db' e)
      | inr (x, db', e) ↦
          let out : ((transaction m >>= f) c db).1 ≡ db = ground arith in subst fits (sym out) here
    ];
  }
