-- ===== src/Platform/Ends.antt =====
-- What holds where an action returns: of its result and of the database.
use business_platform.Platform.Frames.{Keeps}
use business_platform.Prelude.{arith, inl, inr, refl, subst, sym, ◌≡◌}
use business_platform.Schema.{Db}
use business_platform.Platform.{
  ok, err, Action, Context, Result, Outcome-cases, ◌>>=◌, pure, returns, ◌>>◌, transaction,
}

abbrev pub Holds : {A : Type 0} → (A → Db → Type 0) → Result A × Db → Type 0
Holds post (ok a, db') = post a db'
Holds post (err e, db') = Unit

-- Run on the database `db`, the action throws or ends as `post` says.
pub record Ends {A : Type 0} (c : Context) (post : A → Db → Type 0) (db : Db) (m : Action A)
    : Type 0 where
  pub apply : Holds post (m c db)

module _ {c : Context} {db : Db} where
  pub Ends-bind :
      {A B : Type 0} {mid : A → Db → Type 0} {post : B → Db → Type 0} {m : Action A}
      {f : A → Action B}
      → Ends c mid db m
      → ((a : A) (db' : Db) → mid a db' → Ends c post db' (f a))
      → Ends c post db (m >>= f)
  Ends-bind {post} {m} {f} first_part next =
      let held = first_part.apply in
      record {
        apply = elim (Outcome-cases (m c db)) [
          | inl (a, db', e) ↦
              let out : (m >>= f) c db ≡ f a c db' = ground arith in
              subst (Holds post) (sym out) (next a db' (rw e at held)).apply
          | inr (x, db', e) ↦
              let out : (m >>= f) c db ≡ (err x, db') = ground arith in
              subst (Holds post) (sym out) tt
        ];
      }

  pub Ends-then :
      {A B : Type 0} {mid : A → Db → Type 0} {post : B → Db → Type 0} {m : Action A} {n : Action B}
      → Ends c mid db m
      → ((a : A) (db' : Db) → mid a db' → Ends c post db' n)
      → Ends c post db (m >> n)
  Ends-then first_part next = Ends-bind first_part next

  pub Ends-weaken :
      {A : Type 0} {post post' : A → Db → Type 0} {m : Action A}
      → ((a : A) (db' : Db) → post a db' → post' a db')
      → Ends c post db m
      → Ends c post' db m
  Ends-weaken {post'} {m} weaker ends =
      let held = ends.apply in
      record {
        apply = elim (Outcome-cases (m c db)) [
          | inl (a, db', e) ↦ subst (Holds post') (sym e) (weaker a db' (rw e at held))
          | inr (x, db', e) ↦ subst (Holds post') (sym e) tt
        ];
      }

  pub Ends-pure :
      {A : Type 0} {post : A → Db → Type 0} (a : A) → post a db → Ends c post db (pure a)
  Ends-pure a h = record { apply = h }

  pub Ends-returns :
      {A : Type 0} {post : A → Db → Type 0} (r : Result A)
      → ((a : A) → r ≡ ok a → post a db)
      → Ends c post db (returns r)
  Ends-returns (ok a) h = record { apply = h a refl }
  Ends-returns (err e) h = record { apply = tt }

  pub Ends-transaction :
      {A : Type 0} {post : A → Db → Type 0} {m : Action A}
      → Ends c post db m
      → Ends c post db (transaction m)
  Ends-transaction {post} {m} ends = record {
    apply =
        let held = ends.apply in
        elim (Outcome-cases (m c db)) [
          | inl (a, db', e) ↦
              let out : transaction m c db ≡ (ok a, db') = ground arith in
              subst (Holds post) (sym out) (rw e at held)
          | inr (x, db', e) ↦
              let out : transaction m c db ≡ (err x, db) = ground arith in
              subst (Holds post) (sym out) tt
        ];
  }

  -- What leaves a part of the database alone.
  pub Ends-Keeps :
      {A V : Type 0} {view : Db → V} {m : Action A}
      → Keeps c view m
      → Ends c (λ a db'. view db' ≡ view db) db m
  Ends-Keeps {view} {m} keeps = record {
    apply =
        let same = keeps.apply db in
        elim (Outcome-cases (m c db)) [
          | inl (a, db', e) ↦ rw e (rw e at same)
          | inr (x, db', e) ↦ rw e tt
        ];
  }
