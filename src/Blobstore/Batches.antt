-- ===== src/Blobstore/Batches.antt =====
-- Which paths a batch of the vacuum leaves alone.
use omnistash.Base.{ℕ, String, ◌≡◌, false, Option, none, some, List, [], ◌∷◌}
use omnistash.Base.{string_eq, pair_eq, ◌==◌, arith, Bool-cases, inl, inr, ◌⊎◌}
use omnistash.Blobstore.Files.{FilePath}
use omnistash.Blobstore.Deleter.{
  remove_under, remove_command_paths, remove_batch, run_batch, if_started,
}
use omnistash.Blobstore.Spares.{
  Spares, Spares-pure, Spares-lift, Spares-gets, Spares-throw, Spares-attempt, Spares-bind,
  Spares-trip, Spares-os_remove,
}

pub path_cases : (p q : FilePath) → (p ≡ q) ⊎ ((p == q) ≡ false)
path_cases p q = elim (pair_eq.dec p q) [ yes e ↦ inl e | no n ↦ inr (ground (arith, n)) ]

-- None of the paths is this one.
abbrev pub Avoids : FilePath → List FilePath → Type 0
Avoids p [] = Unit
Avoids p (q ∷ qs) = ((p == q) ≡ false) × Avoids p qs

pub Spares-remove_under :
    (root : String) (p q : FilePath) → (p == q) ≡ false → Spares p (remove_under root q)
Spares-remove_under root p q h = elim (Bool-cases (q.0 == root)) [
  | inl b ↦ rw b (Spares-os_remove p q h)
  | inr b ↦ rw b (Spares-throw p _)
]

pub Spares-remove_command_paths :
    (root : String) (p : FilePath) (qs : List FilePath)
    → Avoids p qs
    → Spares p (remove_command_paths root qs)
unfolding remove_command_paths
Spares-remove_command_paths root p [] h = Spares-pure p _
Spares-remove_command_paths root p (q ∷ qs) h =
    Spares-bind p _ _ (Spares-attempt p _ (Spares-remove_under root p q h.0))
      λ r. Spares-bind p _ _ (Spares-remove_command_paths root p qs h.1) λ rest. Spares-pure p _

pub Spares-run_batch :
    (root : String) (p : FilePath) (qs : List FilePath) → Avoids p qs → Spares p (run_batch root qs)
Spares-run_batch root p [] h = Spares-pure p _
Spares-run_batch root p (q ∷ qs) h = Spares-bind p _ _ (Spares-trip p) λ opened.
    Spares-bind p _ _ (Spares-attempt p _ (Spares-trip p)) λ sent.
      Spares-bind p _ _
        (Spares-attempt p _ (
          Spares-bind p _ _ (Spares-lift p sent)
            λ _. Spares-remove_command_paths root p (q ∷ qs) h))
        λ r.
          Spares-bind p _ _
            (Spares-bind p _ _ (Spares-attempt p _ (Spares-trip p)) λ closed. Spares-pure p _)
            λ _. Spares-lift p r

pub Spares-remove_batch :
    (root : String) (p : FilePath) (qs : List FilePath)
    → Avoids p qs
    → Spares p (remove_batch root qs)
unfolding remove_batch
Spares-remove_batch root p qs h = Spares-bind p _ _ (Spares-gets p _) started
  where
    started : (jobs : Option ℕ) → Spares p (if_started jobs (run_batch root qs))
    started none = Spares-throw p _
    started (some jobs) = Spares-run_batch root p qs h
