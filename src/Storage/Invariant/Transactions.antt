-- ===== src/Storage/Invariant/Transactions.antt =====
-- The parts of a transaction that keep a property of the database.
use mc_control_plane.Base.{
  Bool, true, false, ◌≡◌, refl, subst, Result, ok, err, ◌>>=◌, if◌then◌else◌,
}
use mc_control_plane.AppErrors.{AppError}
use mc_control_plane.Codec.{Codec}
use mc_control_plane.Storage.Tables.{Db, Op, committed, transaction}

module _ {c : Codec} (Inv : Db c → Type 0) where
  abbrev KeptResult : {A : Type 0} → Result AppError (A × Db c) → Type 0
  KeptResult (ok (a, db)) = Inv db
  KeptResult (err e) = Unit

  -- What a transaction would commit has the property.
  pub record Commits {A : Type 0} (r : Result AppError (A × Db c)) : Type 0 where
    pub holds : KeptResult r

  -- The database that a part of a transaction returns has it.
  pub record Returns (r : Result AppError (Db c)) : Type 0 where
    pub holds : (db : Db c) → r ≡ ok db → Inv db

  -- An operation that keeps the property, whether it succeeds or fails.
  pub record Keeps {A : Type 0} (op : Op c A) : Type 0 where
    pub at : (db : Db c) → Inv db → Inv (op db).1

module _ {c : Codec} {Inv : Db c → Type 0} where
  pub Commits-bind :
      {A B : Type 0} (m : Result AppError B) (f : B → Result AppError (A × Db c))
      → ((b : B) → m ≡ ok b → Commits Inv (f b))
      → Commits Inv (m >>= f)
  unfolding ◌>>=◌
  Commits-bind (ok b) f h = h b refl
  Commits-bind (err e) f h = record { holds = tt }

  pub Commits-if :
      {A : Type 0} (b : Bool) (x y : Result AppError (A × Db c))
      → Commits Inv x
      → Commits Inv y
      → Commits Inv (if b then x else y)
  Commits-if true x y h k = h
  Commits-if false x y h k = k

  pub Commits-ok : {A : Type 0} (a : A) (db : Db c) → Inv db → Commits Inv {A = A} (ok (a, db))
  Commits-ok a db v = record { holds = v }

  pub Commits-err : {A : Type 0} (e : AppError) → Commits Inv {A = A} (err e)
  Commits-err e = record { holds = tt }

  pub Returns-err : (e : AppError) → Returns Inv (err e)
  Returns-err e = record { holds = λ db' same. absurd (cc same) }

  pub Returns-bind :
      {B : Type 0} (m : Result AppError B) (f : B → Result AppError (Db c))
      → ((b : B) → m ≡ ok b → Returns Inv (f b))
      → Returns Inv (m >>= f)
  unfolding ◌>>=◌
  Returns-bind (ok b) f h = h b refl
  Returns-bind (err e) f h = Returns-err e

  pub Returns-if :
      (b : Bool) (x y : Result AppError (Db c))
      → Returns Inv x
      → Returns Inv y
      → Returns Inv (if b then x else y)
  Returns-if true x y h k = h
  Returns-if false x y h k = k

  pub Returns-ok : {db : Db c} → Inv db → Returns Inv (ok db)
  Returns-ok v = record { holds = λ db' e. subst Inv (cc e) v }

  committed-Inv :
      {A : Type 0} (db : Db c) (r : Result AppError (A × Db c))
      → Inv db
      → Commits Inv r
      → Inv (committed db r).1
  committed-Inv db (ok (a, db')) v k = k.holds
  committed-Inv db (err e) v k = v

  pub transaction-Keeps :
      {A : Type 0} (body : Db c → Result AppError (A × Db c))
      → ((db : Db c) → Inv db → Commits Inv (body db))
      → Keeps Inv (transaction body)
  transaction-Keeps body h = record { at = λ db v. committed-Inv db (body db) v (h db v) }
