-- ===== src/World.antt =====
-- What the services run in: the database, the files, and what the operating system, the database
-- engine and the other packages outside the repository answer.
--
-- A step of the program is a `Proc`: it takes the world and returns a Go result and the new world.
-- Every call that leaves the program draws one entry of `faults` first. `none`, or the end of the
-- list, is success; `some n` is an error that the code does not test for, after `n` bytes where the
-- call writes.
use omnistash.Base.{ℕ, Option, none, some, List, [], ◌∷◌}
use omnistash.Errors.{Error, Sentinel, sys, SysError, Result, ok, err, fail}
use omnistash.Metastore.Tables.{Db}
use omnistash.Blobstore.Files.{Files}

pub record World : Type 0 where
  pub db : Db
  pub files : Files
  pub faults : List (Option ℕ)
  -- the number of UUIDs drawn
  pub drawn : ℕ
  -- `unixepoch()`
  pub now : ℕ
  -- `VacuumManager.jobs`: the number of the open channel
  pub jobs : Option ℕ
  -- the number of channels made
  pub made : ℕ

abbrev pub Proc : Type 0 → Type 0
Proc A = World → Result A × World

module _ {A : Type 0} where
  unfoldable pub pure : A → Proc A
  pure a w = (ok a, w)

  unfoldable pub raise : Error → Proc A
  raise e w = (err e, w)

  unfoldable pub lift : Result A → Proc A
  lift r w = (r, w)

  unfoldable pub gets : (World → A) → Proc A
  gets f w = (ok (f w), w)

  -- The error of a call as a value, for code that tests it.
  unfoldable pub attempt : Proc A → Proc (Result A)
  attempt m w = let (r, w') = m w in (ok r, w')

unfoldable pub modify : (World → World) → Proc (Unit {0})
modify f w = (ok tt, f w)

-- The answer of the next call, and the answers of those after it.
abbrev pub next : List (Option ℕ) → Option ℕ
next [] = none
next (f ∷ fs) = f

abbrev pub later : List (Option ℕ) → List (Option ℕ)
later [] = []
later (f ∷ fs) = fs

abbrev pub answer : Option ℕ → Result (Unit {0})
answer none = ok tt
answer (some n) = fail (sys SysError.external)

-- The answer of one call that leaves the program.
unfoldable pub draw : Proc (Option ℕ)
draw w = (ok (next w.faults), record w { faults = later w.faults })

-- A call that either does its work or does nothing and fails.
unfoldable pub trip : Proc (Unit {0})
trip w = (answer (next w.faults), record w { faults = later w.faults })

module _ {A B : Type 0} where
  abbrev pub continue : Result A → (A → Proc B) → Proc B
  continue (ok a) f w = f a w
  continue (err e) f w = (err e, w)

  infixl 5 ◌>>=◌ ◌>>◌
  -- Unfolding this unfolds every step above too.
  unfoldable pub ◌>>=◌ : Proc A → (A → Proc B) → Proc B
  unfolding pure raise lift gets attempt modify draw trip
  ◌>>=◌ m f w = let (r, w') = m w in continue r f w'

  abbrev pub ◌>>◌ : Proc A → Proc B → Proc B
  m >> n = m >>= λ _. n

abbrev pub throw : {A : Type 0} → Sentinel → Proc A
throw e = raise (e ∷ [])

-- A call whose error is logged and dropped.
abbrev pub quietly : Proc (Unit {0}) → Proc (Unit {0})
quietly m = do attempt m; pure tt

-- From here on every call that leaves the program succeeds.
abbrev pub calm : World → World
calm w = record w { faults = [] }
