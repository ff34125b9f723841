-- ===== src/Blobstore/Swept.antt =====
-- What the sweep of stale uploads leaves alone.
use omnistash.Base.{ℕ, String, ◌≡◌, refl, ap, sym, ◌∙◌, Bool, true, false, List, [], ◌∷◌}
use omnistash.Base.{string_eq, pair_eq, ◌==◌, if◌then◌else◌, Bool-cases, inl, inr, ◌⊎◌}
use omnistash.Base.Table.{Table}
use omnistash.Errors.{Result, ok, err}
use omnistash.Blobstore.Files.{FilePath, content}
use omnistash.Blobstore.Sweep.{
  is_stale, is_staging, staging_entries, find_stale_staging_entries, walk_entries, remove_entries,
  sweep_entries, sweep_directories, vacuum_staging_blobs, Found, stat_entry, if_reached,
  unless_done, collected,
}
use omnistash.World.{World, pure, gets, attempt, trip}
use omnistash.Blobstore.Spares.{
  Spares, Yields, anything, Yields-bind, Spares-pure, Spares-lift, Spares-gets, Spares-attempt,
  Spares-bind_given, Spares-bind, Spares-trip,
}
use omnistash.Blobstore.Batches.{path_cases, Avoids, Spares-remove_batch}

module _ (modified : FilePath → ℕ) (now grace : ℕ) (p : FilePath) where
  -- If the entry is stale, it is not this one.
  abbrev Harmless : FilePath → Type 0
  Harmless q = (is_stale modified now grace q ≡ false) ⊎ ((p == q) ≡ false)

  abbrev AllHarmless : List FilePath → Type 0
  AllHarmless [] = Unit
  AllHarmless (q ∷ qs) = Harmless q × AllHarmless qs

  abbrev FoundAvoids : Found → Type 0
  FoundAvoids found = Avoids p found.0

  collected-Avoids :
      (q : FilePath) (info : Result (Unit {0})) (found : Found)
      → Harmless q
      → FoundAvoids found
      → FoundAvoids (collected modified now grace q info found)
  collected-Avoids q (err e) found h k = k
  collected-Avoids q (ok info) found (inl fresh) k = rw fresh k
  collected-Avoids q (ok info) found (inr other) k =
      elim (Bool-cases (is_stale modified now grace q)) [ inl b ↦ rw b (other, k) | inr b ↦ rw b k ]

  walk-Avoids :
      (entries : List FilePath) (w : World)
      → AllHarmless entries
      → Yields FoundAvoids (walk_entries modified now grace entries w).0
  unfolding walk_entries pure
  walk-Avoids [] w h = tt
  walk-Avoids (q ∷ qs) w h =
      Yields-bind _ FoundAvoids (attempt trip) _ w (anything _)
        (running (λ v. walk-Avoids qs v h.1))
    where
      running :
          ((v : World) → Yields FoundAvoids (walk_entries modified now grace qs v).0)
          → (r : Result (Unit {0})) → Unit {0}
          → (v : World)
          → Yields FoundAvoids
              (unless_done modified now grace r
                (stat_entry modified now grace q (walk_entries modified now grace qs))
                v).0
      running rest (err e) u v = tt
      running rest (ok done) u v =
          Yields-bind _ FoundAvoids (attempt trip) _ v (anything _) λ info _ v2.
            Yields-bind FoundAvoids FoundAvoids _ _ v2 (rest v2)
              λ found k v3. collected-Avoids q info found h.0 k

  Spares-walk : (entries : List FilePath) → Spares p (walk_entries modified now grace entries)
  unfolding walk_entries
  Spares-walk [] = Spares-pure p _
  Spares-walk (q ∷ qs) =
      Spares-bind p _ _ (Spares-attempt p _ (Spares-trip p)) (running (Spares-walk qs))
    where
      running :
          Spares p (walk_entries modified now grace qs)
          → (r : Result (Unit {0}))
          → Spares p (
              unless_done modified now grace r
                (stat_entry modified now grace q (walk_entries modified now grace qs)))
      running rest (err e) = Spares-pure p _
      running rest (ok done) =
          Spares-bind p _ _ (Spares-attempt p _ (Spares-trip p))
            λ info. Spares-bind p _ _ rest λ found. Spares-pure p _

  find-Avoids :
      (entries : List FilePath) (w : World)
      → AllHarmless entries
      → Yields FoundAvoids (find_stale_staging_entries modified now grace entries w).0
  unfolding find_stale_staging_entries pure
  find-Avoids entries w h = Yields-bind _ FoundAvoids (attempt trip) _ w (anything _) opened
    where
      opened :
          (r : Result (Unit {0}))
          → Unit {0}
          → (v : World)
          → Yields FoundAvoids
              (unless_done modified now grace r (walk_entries modified now grace entries) v).0
      opened (err e) u v = tt
      opened (ok done) u v = walk-Avoids entries v h

  Spares-find :
      (entries : List FilePath) → Spares p (find_stale_staging_entries modified now grace entries)
  unfolding find_stale_staging_entries
  Spares-find entries = Spares-bind p _ _ (Spares-attempt p _ (Spares-trip p)) opened
    where
      opened :
          (r : Result (Unit {0}))
          → Spares p (unless_done modified now grace r (walk_entries modified now grace entries))
      opened (err e) = Spares-pure p _
      opened (ok done) = Spares-walk entries

  Spares-remove_entries :
      (ns : String) (qs : List FilePath)
      → Avoids p qs
      → Spares p (remove_entries modified now grace ns qs)
  Spares-remove_entries ns [] h = Spares-pure p _
  Spares-remove_entries ns (q ∷ qs) h =
      Spares-bind p _ _ (Spares-attempt p _ (Spares-remove_batch ns p (q ∷ qs) h))
        λ r. Spares-pure p _

  Spares-sweep_entries :
      (ns : String) (entries : List FilePath)
      → AllHarmless entries
      → Spares p (sweep_entries modified now grace ns entries)
  Spares-sweep_entries ns entries h =
      Spares-bind_given p FoundAvoids _ _ (Spares-find entries) (λ w. find-Avoids entries w h)
        λ found avoids.
          Spares-bind p _ _ (Spares-remove_entries ns found.0 avoids) λ errs. Spares-pure p _

  abbrev Kept : Type 0
  Kept = (is_staging p ≡ false) ⊎ (is_stale modified now grace p ≡ false)

  kept-Harmless : Kept → (q : FilePath) → is_staging q ≡ true → Harmless q
  kept-Harmless h q e = elim (path_cases p q) [
    | inr other ↦ inr other
    | inl same ↦ elim h [
      | inl plain ↦ cc
      | inr young ↦ inl (sym (ap (is_stale modified now grace) same) ∙ young)
    ]
  ]

  entries-AllHarmless :
      (ns : String) (names : Table FilePath ℕ) → Kept → AllHarmless (staging_entries ns names)
  unfolding staging_entries
  entries-AllHarmless ns [] h = tt
  entries-AllHarmless ns ((q, i) ∷ names) h =
      entry (is_staging q) refl (q.0 == ns) (entries-AllHarmless ns names h)
    where
      entry :
          (b : Bool)
          → is_staging q ≡ b
          → (c : Bool) → AllHarmless (staging_entries ns names)
          → AllHarmless (
              if b
              then (if c then q ∷ staging_entries ns names else staging_entries ns names)
              else staging_entries ns names)
      entry false e c rest = rest
      entry true e false rest = rest
      entry true e true rest = (kept-Harmless h q e, rest)

  Spares-sweep_directories :
      (nss : List String) → Kept → Spares p (sweep_directories modified now grace nss)
  unfolding sweep_directories gets
  Spares-sweep_directories [] h = Spares-pure p _
  Spares-sweep_directories (ns ∷ nss) h =
      Spares-bind p _ _ (Spares-attempt p _ (Spares-trip p)) λ reached.
        Spares-bind_given p AllHarmless (gets (λ w. staging_entries ns w.files.names)) _
          (Spares-gets p _) (λ w. entries-AllHarmless ns w.files.names h)
          λ entries harmless.
            Spares-bind p _ _ (swept reached entries harmless)
              λ errs. Spares-bind p _ _ (Spares-sweep_directories nss h) λ more. Spares-pure p _
    where
      swept :
          (r : Result (Unit {0})) (entries : List FilePath)
          → AllHarmless entries
          → Spares p (if_reached modified now grace r (sweep_entries modified now grace ns entries))
      swept (err e) entries k = Spares-pure p _
      swept (ok done) entries k = Spares-sweep_entries ns entries k

  -- Whatever fails, a path that is no staging file reads after `VacuumStagingBlobs` as before it,
  -- and so does a staging file that is younger than the grace period.
  pub content-vacuum_staging_blobs :
      (w : World)
      → (is_staging p ≡ false) ⊎ (is_stale modified now grace p ≡ false)
      → content p (vacuum_staging_blobs modified now grace w).1.files ≡ content p w.files
  unfolding vacuum_staging_blobs
  content-vacuum_staging_blobs w h =
      (Spares-bind p _ _ (Spares-trip p) λ _. Spares-bind p _ _ (Spares-gets p _) λ directories.
          Spares-bind p _ _ (Spares-sweep_directories directories h) λ errs. Spares-lift p _).spare
        w
