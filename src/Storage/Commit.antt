-- ===== src/Storage/Commit.antt =====
-- What a transaction's answer tells of its body.
use mc_control_plane.Base.{◌≡◌, refl, ap, Result, ok, err}
use mc_control_plane.AppErrors.{AppError}
use mc_control_plane.Codec.{Codec}
use mc_control_plane.Storage.Tables.{Db, committed}

module _ {A : Type 0} {c : Codec} where
  pub committed-eq-ok :
      (db db' : Db c) (r : Result AppError (A × Db c)) (a : A)
      → committed db r ≡ (ok a, db')
      → r ≡ ok (a, db')
  committed-eq-ok db db' (ok (a', db'')) a e = cc (ap (λ p. p.0) e, ap (λ p. p.1) e)
  committed-eq-ok db db' (err error) a e = absurd (cc (ap (λ p. p.0) e))

  -- A failed transaction leaves the database as it was.
  pub committed-eq-err :
      (db : Db c) (r : Result AppError (A × Db c)) (e : AppError)
      → (committed db r).0 ≡ err e
      → (committed db r).1 ≡ db
  committed-eq-err db (ok (a, db')) e h = absurd (cc h)
  committed-eq-err db (err e') e h = refl
