-- ===== src/Contracts/Passes/Referrers.antt =====
-- The tests of referrers, over SQLite.
use omnistash.Base.{
  ℕ, ◌≡◌, ◌≢◌, refl, true, false, none, [], ◌∷◌, ◌==◌, ==_refl, string_eq, pair_eq, arith,
}
use omnistash.Base.{leb}
use omnistash.Errors.{ok}
use omnistash.Metastore.Tables.{Db, Key, ReferrerRow, ReferrerColumns}
use omnistash.Metastore.Sql.{referrer_columns}
use omnistash.Metastore.Tx.{stored}
use omnistash.Contracts.Testing.{run_all}
use omnistash.Contracts.Metadata.Fixtures.{Digests, default_name}
use omnistash.Contracts.Metadata.Referrers.{
  default_referrer_row, updated_type, seed_referrer, list, upsert_then_list, upsert_twice,
  upsert_nil_annotations, list_unknown, list_two, delete_then_list, delete_missing_referrer,
  exercise_upsert_referrer, exercise_list_referrers, exercise_delete_referrer,
  exercise_referrer_ops_contract,
}
use omnistash.Contracts.Passes.Sqlite.{store, on, new_sqlite, sqlite, named, same_key}
use omnistash.Contracts.Passes.Names.{seed_name}
use omnistash.World.{World, ◌>>=◌}

abbrev columns : ℕ → ReferrerRow → ReferrerColumns
columns now row = referrer_columns now (record row { annotations = stored row.annotations })

abbrev with_row : ℕ → ReferrerRow → Db
with_row now row = record (named now) {
  manifest_referrers = ((default_name, row.digest), columns now row) ∷ [];
}

abbrev with_rows : ℕ → ReferrerRow → ReferrerRow → Db
with_rows now row row' = record (named now) {
  manifest_referrers =
      ((default_name, row.digest), columns now row)
      ∷ ((default_name, row'.digest), columns now row')
      ∷ [];
}

leb_refl : (n : ℕ) → leb n n ≡ true
leb_refl n = ground arith

module _ (w : World) where
  seed_row :
      (row : ReferrerRow)
      → seed_referrer store row (on w (named w.now)) ≡ (ok tt, on w (with_row w.now row))
  unfolding seed_referrer store
  seed_row row = refl

  list_row :
      (row : ReferrerRow)
      → list store row.subject_digest (on w (with_row w.now row))
        ≡ (ok (record row { annotations = stored row.annotations } ∷ []), on w (with_row w.now row))
  unfolding store
  list_row row = rw (==_refl row.subject_digest)

module _ (d : Digests) (w : World) where
  abbrev default : ReferrerRow
  default = default_referrer_row d

  abbrev updated : ReferrerRow
  updated = record default { artifact_type = updated_type }

  abbrev second : ReferrerRow
  second = record default { digest = d.referrer_2 }

  seed_updated :
      seed_referrer store updated (on w (with_row w.now default))
      ≡ (ok tt, on w (with_row w.now updated))
  unfolding seed_referrer store
  seed_updated = rw (same_key default_name d.referrer)

  upsert_passes : (upsert_then_list store d (new_sqlite w)).0 ≡ ok tt
  unfolding upsert_then_list ◌>>=◌ string_eq pair_eq
  upsert_passes =
      rw
        (seed_name w, seed_row w default, list_row w default, ==_refl d.subject, ==_refl d.referrer)

  upsert_twice_passes : (upsert_twice store d (new_sqlite w)).0 ≡ ok tt
  unfolding upsert_twice ◌>>=◌ string_eq
  upsert_twice_passes = rw (seed_name w, seed_row w default, seed_updated, list_row w updated)

  nil_passes : (upsert_nil_annotations store d (new_sqlite w)).0 ≡ ok tt
  unfolding upsert_nil_annotations ◌>>=◌
  nil_passes =
      let row : ReferrerRow = record default { annotations = none } in
      rw (seed_name w, seed_row w row, list_row w row)

  list_unknown_passes : (list_unknown store d (new_sqlite w)).0 ≡ ok tt
  unfolding list_unknown store
  list_unknown_passes = rw (seed_name w)

  distinct_keys :
      d.referrer_2 ≢ d.referrer
      → (let k : Key = (default_name, d.referrer_2) in
          let j : Key = (default_name, d.referrer) in k == j)
        ≡ false
  distinct_keys differ = ground arith

  seed_second :
      d.referrer_2 ≢ d.referrer
      → seed_referrer store second (on w (with_row w.now default))
        ≡ (ok tt, on w (with_rows w.now default second))
  unfolding seed_referrer store
  seed_second differ = rw (distinct_keys differ)

  list-second :
      list store d.subject (on w (with_rows w.now default second))
      ≡ (ok (default ∷ second ∷ []), on w (with_rows w.now default second))
  unfolding store
  list-second = rw (==_refl d.subject, leb_refl w.now)

  list_two_passes : d.referrer_2 ≢ d.referrer → (list_two store d (new_sqlite w)).0 ≡ ok tt
  unfolding list_two ◌>>=◌
  list_two_passes differ = rw (seed_name w, seed_row w default, seed_second differ, list-second)

  delete_passes : (delete_then_list store d (new_sqlite w)).0 ≡ ok tt
  unfolding delete_then_list ◌>>=◌ store
  delete_passes = rw (seed_name w, seed_row w default, same_key default_name d.referrer)

  delete_missing_passes : (delete_missing_referrer store d (new_sqlite w)).0 ≡ ok tt
  unfolding delete_missing_referrer store
  delete_missing_passes = rw (seed_name w)

pub referrers_pass :
    (d : Digests) (w : World)
    → d.referrer_2 ≢ d.referrer
    → exercise_referrer_ops_contract (sqlite d) w ≡ (ok tt, w)
unfolding exercise_referrer_ops_contract exercise_upsert_referrer exercise_list_referrers
    exercise_delete_referrer run_all ◌>>=◌
referrers_pass d w differ = rw (
  upsert_passes d w,
  upsert_twice_passes d w,
  nil_passes d w,
  list_unknown_passes d w,
  list_two_passes d w differ,
  delete_passes d w,
  delete_missing_passes d w,
)
