-- ===== src/Blobstore/Emptied.antt =====
-- Batches of the vacuum while the operating system answers, and the files that they remove.
use omnistash.Base.{
  ℕ, ◌+◌, String, ◌≡◌, refl, ap, ◌∙◌, Bool, true, false, ◌||◌, Option, none, some, List, [], ◌∷◌,
  ◌++◌,
}
use omnistash.Base.{◌==◌, ==_refl, string_eq, pair_eq, arith, Bool-cases, inl, inr, ◌⊎◌}
use omnistash.Base.Table.{Table, lookup}
use omnistash.Errors.{Error, ok}
use omnistash.Blobstore.Files.{FilePath, Files, inode, unlink}
use omnistash.Blobstore.Os.{os_remove}
use omnistash.Blobstore.Contents.{inode-unlink, unlink_absent}
use omnistash.Blobstore.Deleter.{
  remove_command_paths, remove_batch, run_batch, if_started, join_errors,
}
use omnistash.Blobstore.Sweep.{mentions, add_namespace, is_staging, staging_directories}
use omnistash.Blobstore.Batches.{path_cases}
use mathlib.Core.Path.{subst}
use omnistash.World.{World, Proc, calm, ◌>>=◌}

abbrev pub unlink_all : List FilePath → Files → Files
unlink_all [] fs = fs
unlink_all (p ∷ ps) fs = unlink_all ps (unlink p fs)

abbrev pub AllIn : String → List FilePath → Type 0
AllIn root [] = Unit
AllIn root (p ∷ ps) = ((p.0 == root) ≡ true) × AllIn root ps

-- The step succeeds, leaves these files, and its result has no error.
abbrev pub Succeeds : {A : Type 0} → (A → List (Option Error)) → Proc A → World → Files → Type 0
Succeeds {A = A} errs m w fs =
    (a : A) × (m (calm w) ≡ (ok a, calm (record w { files = fs }))) × (join_errors (errs a) ≡ none)

pub removed :
    (root : String) (ps : List FilePath) (w : World)
    → AllIn root ps
    → Succeeds (λ b. b.1) (remove_command_paths root ps) w (unlink_all ps w.files)
unfolding remove_command_paths os_remove ◌>>=◌
removed root [] w h = ((0, []), refl, refl)
removed root (p ∷ ps) w h = go (inode p w.files) refl (λ v. removed root ps v h.1)
  where
    go :
        (o : Option ℕ)
        → inode p w.files ≡ o
        → ((v : World)
            → Succeeds (λ b. b.1) (remove_command_paths root ps) v (unlink_all ps v.files))
        → Succeeds (λ b. b.1) (remove_command_paths root (p ∷ ps)) w (unlink_all (p ∷ ps) w.files)
    go none e rest =
        let ((n, errs), same, clean) = rest w in
        ((n, none ∷ errs), rw (h.0, e, same, unlink_absent p w.files e) refl, clean)
    go (some i) e rest =
        let ((n, errs), same, clean) = rest (record w { files = unlink p w.files }) in
        ((n + 1, none ∷ errs), rw (h.0, e, same) refl, clean)

pub batch_removed :
    (root : String) (p : FilePath) (ps : List FilePath) (w : World) (jobs : ℕ)
    → w.jobs ≡ some jobs
    → AllIn root (p ∷ ps)
    → Succeeds (λ b. b.1) (remove_batch root (p ∷ ps)) w (unlink_all (p ∷ ps) w.files)
unfolding remove_batch ◌>>=◌
batch_removed root p ps w jobs j h =
    let (a, same, clean) = removed root (p ∷ ps) w h in
    let run : run_batch root (p ∷ ps) (calm w)
        ≡ (ok a, calm (record w { files = unlink_all (p ∷ ps) w.files })) =
      rw same refl in
    (a, ap (λ o. if_started o (run_batch root (p ∷ ps)) (calm w)) j ∙ run, clean)

pub join_clean :
    (es fs : List (Option Error))
    → join_errors es ≡ none
    → join_errors fs ≡ none
    → join_errors (es ++ fs) ≡ none
join_clean [] fs h k = k
join_clean (none ∷ es) fs h k = join_clean es fs h k
join_clean (some e ∷ es) fs h k = absurd (some_error (join_errors es) h)
  where
    some_error : (o : Option Error) → elim o [ none ↦ some e | some f ↦ some (e ++ f) ] ≡ none → ⊥
    some_error none h = cc
    some_error (some f) h = cc

module _ (p : FilePath) where
  unfoldable pub listed : List FilePath → Bool
  listed [] = false
  listed (q ∷ qs) = (p == q) || listed qs

  pub gone_stays :
      (qs : List FilePath) (fs : Files) → inode p fs ≡ none → inode p (unlink_all qs fs) ≡ none
  gone_stays [] fs h = h
  gone_stays (q ∷ qs) fs h = gone_stays qs (unlink q fs) (ground (arith, inode-unlink fs q p))

  pub listed_gone :
      (qs : List FilePath) (fs : Files) → listed qs ≡ true → inode p (unlink_all qs fs) ≡ none
  unfolding listed
  listed_gone [] fs h = cc
  listed_gone (q ∷ qs) fs h = elim (Bool-cases (p == q)) [
    | inl b ↦ gone_stays qs (unlink q fs) (ground (arith, inode-unlink fs q p))
    | inr b ↦ listed_gone qs (unlink q fs) (ground (arith, b))
  ]

  pub mentions-add :
      (q : FilePath) (found : List String)
      → mentions p.0 found ≡ true
      → mentions p.0 (add_namespace q found) ≡ true
  mentions-add q found h = ground (arith, h)

  pub mentions_added :
      (found : List String) → is_staging p ≡ true → mentions p.0 (add_namespace p found) ≡ true
  mentions_added found h = elim (Bool-cases (mentions p.0 found)) [
    | inl b ↦ rw (h, b) b
    | inr b ↦ rw (h, b, ==_refl p.0) refl
  ]

  pub mentioned :
      (names : Table FilePath ℕ)
      → is_staging p ≡ true
      → (lookup p names ≡ none) ⊎ (mentions p.0 (staging_directories names) ≡ true)
  unfolding lookup staging_directories
  mentioned [] h = inl refl
  mentioned ((q, i) ∷ names) h = elim (path_cases p q) [
    | inl same ↦ inr (
        subst (λ t. mentions p.0 (add_namespace t (staging_directories names)) ≡ true) same
          (mentions_added (staging_directories names) h))
    | inr other ↦ elim (mentioned names h) [
      | inl absent ↦ inl (rw other absent)
      | inr there ↦ inr (mentions-add q (staging_directories names) there)
    ]
  ]
