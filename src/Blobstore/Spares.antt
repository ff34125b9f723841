-- ===== src/Blobstore/Spares.antt =====
-- Steps that leave a path alone, and how they are put together.
use omnistash.Base.{ℕ, ◌≡◌, refl, ◌∙◌, false, Option, none, some}
use omnistash.Base.{string_eq, pair_eq, ◌==◌}
use omnistash.Errors.{Sentinel, Result, ok, err}
use omnistash.Blobstore.Files.{FilePath, Files, inode, unlink, content, read_at}
use omnistash.Blobstore.Os.{os_remove, unlink_if_there}
use omnistash.Blobstore.Contents.{inode-unlink, read-unlink}
use omnistash.World.{World, Proc, pure, lift, gets, attempt, trip, raise, throw, continue, ◌>>=◌}

-- In every world, whatever fails, the path reads as before after the step.
pub record Spares {A : Type 0} (p : FilePath) (m : Proc A) : Type 0 where
  pub spare : (w : World) → content p (m w).1.files ≡ content p w.files

abbrev pub Yields : {B : Type 0} → (B → Type 0) → Result B → Type 0
Yields P (ok b) = P b
Yields P (err e) = Unit

pub anything : {B : Type 0} (r : Result B) → Yields (λ b. Unit {0}) r
anything (ok b) = tt
anything (err e) = tt

pub Yields-bind :
    {A B : Type 0} (P : B → Type 0) (Q : A → Type 0) (m : Proc B) (f : B → Proc A) (w : World)
    → Yields P (m w).0
    → ((b : B) → P b → (v : World) → Yields Q (f b v).0)
    → Yields Q ((m >>= f) w).0
unfolding ◌>>=◌
Yields-bind {B = B} P Q m f w y k = go (m w).0 y
  where
    go : (r : Result B) → Yields P r → Yields Q (continue r f (m w).1).0
    go (ok b) y = k b y (m w).1
    go (err e) y = tt

module _ (p : FilePath) {A : Type 0} where
  pub Spares-pure : (a : A) → Spares p (pure a)
  unfolding pure
  Spares-pure a = record { spare = λ w. refl }

  pub Spares-lift : (r : Result A) → Spares p (lift r)
  unfolding lift
  Spares-lift r = record { spare = λ w. refl }

  pub Spares-gets : (f : World → A) → Spares p (gets f)
  unfolding gets
  Spares-gets f = record { spare = λ w. refl }

  pub Spares-throw : (e : Sentinel) → Spares {A = A} p (throw e)
  unfolding raise
  Spares-throw e = record { spare = λ w. refl }

  pub Spares-attempt : (m : Proc A) → Spares p m → Spares p (attempt m)
  unfolding attempt
  Spares-attempt m h = record { spare = h.spare }

  -- What holds of every result of the first step may be used in the second.
  pub Spares-bind_given :
      {B : Type 0} (P : B → Type 0) (m : Proc B) (f : B → Proc A)
      → Spares p m
      → ((w : World) → Yields P (m w).0)
      → ((b : B) → P b → Spares p (f b))
      → Spares p (m >>= f)
  unfolding ◌>>=◌
  Spares-bind_given {B = B} P m f h y k = record { spare = λ w. go w (m w).0 (y w) }
    where
      go :
          (w : World) (r : Result B)
          → Yields P r
          → content p (continue r f (m w).1).1.files ≡ content p w.files
      go w (ok b) y = (k b y).spare (m w).1 ∙ h.spare w
      go w (err e) y = h.spare w

  pub Spares-bind :
      {B : Type 0} (m : Proc B) (f : B → Proc A)
      → Spares p m
      → ((b : B) → Spares p (f b))
      → Spares p (m >>= f)
  Spares-bind {B = B} m f h k =
      Spares-bind_given (λ b. Unit {0}) m f h (λ w. anything (m w).0) (λ b u. k b)

pub Spares-trip : (p : FilePath) → Spares p trip
unfolding trip
Spares-trip p = record { spare = λ w. refl }

content-unlink :
    (p q : FilePath) (fs : Files) → (p == q) ≡ false → content p (unlink q fs) ≡ content p fs
unfolding content
content-unlink p q fs h = rw (inode-unlink, h) (go (inode p fs))
  where
    go : (o : Option ℕ) → read_at (unlink q fs) o ≡ read_at fs o
    go none = refl
    go (some i) = rw read-unlink

pub Spares-os_remove : (p q : FilePath) → (p == q) ≡ false → Spares p (os_remove q)
unfolding os_remove
Spares-os_remove p q h =
    Spares-bind p trip _ (Spares-trip p) λ t. record { spare = λ w. go w (inode q w.files) }
  where
    go : (w : World) (o : Option ℕ) → content p (unlink_if_there q o w).1.files ≡ content p w.files
    go w none = refl
    go w (some i) = content-unlink p q w.files h
