-- ===== src/Blobstore/Cleared.antt =====
-- What the sweep of stale uploads removes, while the operating system answers.
use omnistash.Base.{
  ℕ, String, ◌≡◌, refl, sym, Bool, true, false, ◌&&◌, none, some, List, [], ◌∷◌, ◌++◌,
}
use omnistash.Base.{
  ◌==◌, ==_refl, string_eq, pair_eq, if◌then◌else◌, arith, Bool-cases, inl, inr, ◌⊎◌,
}
use omnistash.Base.Table.{Table, lookup}
use omnistash.Errors.{ok}
use omnistash.Blobstore.Files.{FilePath, Files, inode, content}
use omnistash.Blobstore.Sweep.{
  mentions, is_stale, is_staging, staging_entries, staging_directories, find_stale_staging_entries,
  walk_entries, remove_entries, sweep_directories, vacuum_staging_blobs,
}
use omnistash.Blobstore.Swept.{content-vacuum_staging_blobs}
use omnistash.Blobstore.Batches.{path_cases}
use mathlib.Core.Path.{subst}
use omnistash.World.{World, calm, ◌>>=◌}
use omnistash.Blobstore.Emptied.{
  unlink_all, AllIn, Succeeds, batch_removed, join_clean, listed, gone_stays, listed_gone,
  mentioned,
}

module _ (modified : FilePath → ℕ) (now grace : ℕ) where
  abbrev stale_of : List FilePath → List FilePath
  stale_of [] = []
  stale_of (p ∷ ps) = if is_stale modified now grace p then p ∷ stale_of ps else stale_of ps

  walk_calm :
      (es : List FilePath) (w : World)
      → walk_entries modified now grace es (calm w) ≡ (ok (stale_of es, ok tt), calm w)
  unfolding walk_entries ◌>>=◌
  walk_calm [] w = refl
  walk_calm (p ∷ ps) w = rw (walk_calm ps w) refl

  find_calm :
      (es : List FilePath) (w : World)
      → find_stale_staging_entries modified now grace es (calm w)
        ≡ (ok (stale_of es, ok tt), calm w)
  unfolding find_stale_staging_entries ◌>>=◌
  find_calm es w = rw (walk_calm es w) refl

  entries_removed :
      (ns : String) (ps : List FilePath) (w : World) (jobs : ℕ)
      → w.jobs ≡ some jobs
      → AllIn ns ps
      → Succeeds (λ es. es) (remove_entries modified now grace ns ps) w (unlink_all ps w.files)
  unfolding ◌>>=◌
  entries_removed ns [] w jobs j h = ([], refl, refl)
  entries_removed ns (p ∷ ps) w jobs j h =
      let (a, same, clean) = batch_removed ns p ps w jobs j h in (a.1, rw same refl, clean)

  stale-AllIn : (ns : String) (es : List FilePath) → AllIn ns es → AllIn ns (stale_of es)
  stale-AllIn ns [] h = tt
  stale-AllIn ns (p ∷ ps) h = elim (Bool-cases (is_stale modified now grace p)) [
    | inl b ↦ rw b (h.0, stale-AllIn ns ps h.1)
    | inr b ↦ rw b (stale-AllIn ns ps h.1)
  ]

  entries-AllIn : (ns : String) (names : Table FilePath ℕ) → AllIn ns (staging_entries ns names)
  unfolding staging_entries
  entries-AllIn ns [] = tt
  entries-AllIn ns ((p, i) ∷ names) = elim (Bool-cases (is_staging p)) [
    | inr b ↦ rw b (entries-AllIn ns names)
    | inl b ↦ elim (Bool-cases (p.0 == ns)) [
      | inr c ↦ rw (b, c) (entries-AllIn ns names)
      | inl c ↦ rw (b, c) (c, entries-AllIn ns names)
    ]
  ]

  abbrev cleared : List String → Files → Files
  cleared [] fs = fs
  cleared (ns ∷ nss) fs = cleared nss (unlink_all (stale_of (staging_entries ns fs.names)) fs)

  swept :
      (nss : List String) (w : World) (jobs : ℕ)
      → w.jobs ≡ some jobs
      → Succeeds (λ es. es) (sweep_directories modified now grace nss) w (cleared nss w.files)
  unfolding sweep_directories ◌>>=◌
  swept [] w jobs j = ([], refl, refl)
  swept (ns ∷ nss) w jobs j =
      let es = staging_entries ns w.files.names in
      let (errs, same, clean) =
        entries_removed ns (stale_of es) w jobs j
          (stale-AllIn ns es (entries-AllIn ns w.files.names)) in
      let (more, rest, clean_rest) =
        swept nss (record w { files = unlink_all (stale_of es) w.files }) jobs j in
      (
        (errs ++ []) ++ more,
        rw (find_calm es w, same, rest) refl,
        join_clean (errs ++ []) more (join_clean errs [] clean refl) clean_rest,
      )

  staged_listed :
      (p : FilePath) (names : Table FilePath ℕ)
      → is_staging p ≡ true
      → is_stale modified now grace p ≡ true
      → (lookup p names ≡ none) ⊎ (listed p (stale_of (staging_entries p.0 names)) ≡ true)
  unfolding lookup staging_entries listed
  staged_listed p [] h k = inl refl
  staged_listed p ((q, i) ∷ names) h k = elim (path_cases p q) [
    | inl same ↦ inr (
        subst
          (λ t.
            listed p (
              stale_of (
                if is_staging t
                then (if t.0 == p.0
                    then t ∷ staging_entries p.0 names
                    else staging_entries p.0 names)
                else staging_entries p.0 names))
            ≡ true)
          same (rw (h, ==_refl p.0, k, ==_refl p) refl))
    | inr other ↦ elim (staged_listed p names h k) [
      | inl absent ↦ inl (rw other absent)
      | inr there ↦ inr (more_listed q (is_staging q) (q.0 == p.0) there)
    ]
  ]
    where
      more_listed :
          (q : FilePath) (b c : Bool)
          → listed p (stale_of (staging_entries p.0 names)) ≡ true
          → listed p (
              stale_of (
                if b
                then (if c then q ∷ staging_entries p.0 names else staging_entries p.0 names)
                else staging_entries p.0 names))
            ≡ true
      more_listed q false c m = m
      more_listed q true false m = m
      more_listed q true true m = elim (Bool-cases (is_stale modified now grace q)) [
        | inl d ↦ rw d (ground (arith, m))
        | inr d ↦ rw d m
      ]

  cleared_stays :
      (p : FilePath) (nss : List String) (fs : Files)
      → inode p fs ≡ none
      → inode p (cleared nss fs) ≡ none
  cleared_stays p [] fs h = h
  cleared_stays p (ns ∷ nss) fs h =
      cleared_stays p nss _ (gone_stays p (stale_of (staging_entries ns fs.names)) fs h)

  cleared_gone :
      (p : FilePath) (nss : List String) (fs : Files)
      → is_staging p ≡ true
      → is_stale modified now grace p ≡ true
      → mentions p.0 nss ≡ true
      → inode p (cleared nss fs) ≡ none
  unfolding inode
  cleared_gone p [] fs h k m = cc
  cleared_gone p (ns ∷ nss) fs h k m = elim (string_eq.dec ns p.0) [
    | no other ↦ cleared_gone p nss _ h k (ground (arith, m, other))
    | yes same ↦ elim (staged_listed p fs.names h k) [
      | inl absent ↦ cleared_stays p (ns ∷ nss) fs absent
      | inr there ↦ cleared_stays p nss _ (
          listed_gone p (stale_of (staging_entries ns fs.names)) fs
            (subst (λ s. listed p (stale_of (staging_entries s fs.names)) ≡ true) (sym same) there))
    ]
  ]

  module _ (w : World) (jobs : ℕ) (j : w.jobs ≡ some jobs) where
    abbrev directories : List String
    directories = staging_directories w.files.names

    vacuum_calm :
        vacuum_staging_blobs modified now grace (calm w)
        ≡ (ok tt, calm (record w { files = cleared directories w.files }))
    unfolding vacuum_staging_blobs ◌>>=◌
    vacuum_calm = let (errs, same, clean) = swept directories w jobs j in rw (same, clean) refl

    stale_gone :
        (p : FilePath)
        → is_staging p ≡ true
        → is_stale modified now grace p ≡ true
        → inode p (cleared directories w.files) ≡ none
    unfolding inode
    stale_gone p h k = elim (mentioned p w.files.names h) [
      | inl absent ↦ cleared_stays p directories w.files absent
      | inr there ↦ cleared_gone p directories w.files h k there
    ]

    -- With the vacuum running, while the operating system answers, `VacuumStagingBlobs` returns nil,
    -- and afterwards every staging file that is not younger than the grace period is gone, and every
    -- other path reads as before.
    pub content-vacuum_calm :
        (p : FilePath)
        → ((vacuum_staging_blobs modified now grace (calm w)).0 ≡ ok tt)
          × (content p (vacuum_staging_blobs modified now grace (calm w)).1.files
              ≡ (if is_staging p && is_stale modified now grace p then none else content p w.files))
    unfolding content
    content-vacuum_calm p =
        let kept = content-vacuum_staging_blobs modified now grace p (calm w) in
        (
          rw vacuum_calm refl,
          elim (Bool-cases (is_staging p)) [
            | inr b ↦ rw b (kept (inl b))
            | inl b ↦ elim (Bool-cases (is_stale modified now grace p)) [
              | inr c ↦ rw (b, c) (kept (inr c))
              | inl c ↦ rw (b, c, vacuum_calm, stale_gone p b c) refl
            ]
          ],
        )
