-- ===== src/Metastore/Keeps.antt =====
-- Rules for an invariant of the database that a step of the program keeps, whether it returns or
-- fails, and whatever the database engine answers.
use omnistash.Errors.{Error, Result, ok, err}
use omnistash.Metastore.Tables.{Db}
use omnistash.World.{World, Proc, trip, pure, raise, lift, gets, attempt, modify, continue}
use omnistash.World.{◌>>=◌}

pub record Keeps {A : Type 0} (P : Db → Type 0) (m : Proc A) : Type 0 where
  pub at : (w : World) → P w.db → P (m w).1.db

module _ {P : Db → Type 0} where
  pub Keeps-trip : Keeps P trip
  unfolding trip
  Keeps-trip = record { at = λ w h. h }

  -- A change of the world that is known to keep the invariant.
  pub Keeps-modify : (f : World → World) → ((w : World) → P w.db → P (f w).db) → Keeps P (modify f)
  unfolding modify
  Keeps-modify f k = record { at = k }

  module _ {A : Type 0} where
    pub Keeps-pure : (a : A) → Keeps P (pure a)
    unfolding pure
    Keeps-pure a = record { at = λ w h. h }

    pub Keeps-raise : (e : Error) → Keeps P (raise {A = A} e)
    unfolding raise
    Keeps-raise e = record { at = λ w h. h }

    pub Keeps-lift : (r : Result A) → Keeps P (lift r)
    unfolding lift
    Keeps-lift r = record { at = λ w h. h }

    pub Keeps-gets : (f : World → A) → Keeps P (gets f)
    unfolding gets
    Keeps-gets f = record { at = λ w h. h }

    pub Keeps-attempt : (m : Proc A) → Keeps P m → Keeps P (attempt m)
    unfolding attempt
    Keeps-attempt m k = record { at = k.at }

  module _ {A B : Type 0} where
    Keeps-continue :
        (r : Result A) (f : A → Proc B)
        → ((a : A) → Keeps P (f a))
        → (w : World) → P w.db
        → P (continue r f w).1.db
    Keeps-continue (ok a) f k w h = (k a).at w h
    Keeps-continue (err e) f k w h = h

    pub Keeps-bind :
        (m : Proc A) (f : A → Proc B) → Keeps P m → ((a : A) → Keeps P (f a)) → Keeps P (m >>= f)
    unfolding ◌>>=◌
    Keeps-bind m f km kf = record { at = λ w h. Keeps-continue (m w).0 f kf (m w).1 (km.at w h) }

pub ruleset keeps_rules =
    (Keeps-trip, Keeps-pure, Keeps-raise, Keeps-lift, Keeps-gets, Keeps-attempt, Keeps-bind)
