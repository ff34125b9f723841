-- ===== src/Contracts/Testing.antt =====
-- Subtests and the assertions of `testify` that the contract suites make.
use omnistash.Base.{Bool, true, false, List, [], ◌∷◌}
use omnistash.Errors.{Sentinel, Result, ok, err, is}
use omnistash.World.{World, Proc, pure, raise, attempt, ◌>>=◌, ◌>>◌}

-- A test returns nil if every assertion holds. One that fails ends it by an error with no sentinel.
abbrev pub Test : Type 0
Test = Proc (Unit {0})

-- `assert.True`, and the comparison of `assert.Equal` once its values are compared
abbrev pub assert : Bool → Test
assert true = pure tt
assert false = raise []

module _ {A : Type 0} where
  -- `require.NoError`, with the value beside the error
  abbrev pub no_error : Result A → Proc A
  no_error (ok a) = pure a
  no_error (err e) = raise []

  -- `require.ErrorIs`
  abbrev pub error_is : Sentinel → Result A → Test
  error_is target (ok a) = raise []
  error_is target (err e) = assert (is e target)

  -- `require.NoError` on the result of a call
  abbrev pub must : Proc A → Proc A
  must m = do r ← attempt m; no_error r

  -- `require.ErrorIs` on the result of a call
  abbrev pub must_fail : Sentinel → Proc A → Test
  must_fail target m = do r ← attempt m; error_is target r

-- `t.Run` of a test that sets up a store of its own. Parallel subtests share nothing.
abbrev pub subtest : (World → World) → Test → Test
subtest new_store t w = ((t (new_store w)).0, w)

-- The tests of a function, or of a table of cases.
unfoldable pub run_all : List Test → Test
unfolding ◌>>=◌
run_all [] = pure tt
run_all (t ∷ ts) = do t; run_all ts
