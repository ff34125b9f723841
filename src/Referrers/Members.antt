-- ===== src/Referrers/Members.antt =====
-- Which descriptors the service of internal/referrer lists.
use omnistash.Base.{
  Bool, false, ◌||◌, ◌∙◌, ℕ, ◌≡◌, refl, String, ◌==◌, string_eq, pair_eq, none, some, List, [], ◌∷◌,
  arith, ◌⊎◌, inl, inr, ◌↔◌, ap,
}
use mathlib.Core.List.Memᴰ
use mathlib.Core.List.Memᴰ.{Memᴰ}
use omnistash.Base.Table.{Table, lookup}
use omnistash.Metastore.Tables.{Digest, Key, Db, ReferrerColumns, ReferrerRow}
use omnistash.Metastore.Sql
use omnistash.Metastore.Listing
use omnistash.Metastore.Listing.{listed-order_by_date}
use omnistash.Metastore.Sql.{Dated, referrer_row}
use omnistash.Metastore.Tx.{undated}
use omnistash.Referrers.{Descriptor, descriptor, descriptors, of_type, list_result}

module _ {A : Type 0} where
  Memᴰ-cons : (a x : A) (xs : List A) → Memᴰ a (x ∷ xs) ↔ ((a ≡ x) ⊎ Memᴰ a xs)
  Memᴰ-cons a x xs = (Memᴰ.cases_cons, λ h. elim h [ inl e ↦ Memᴰ.head e | inr m ↦ Memᴰ.tail m ])

  Memᴰ-nil : (a : A) → ¬ Memᴰ a []
  Memᴰ-nil a = Memᴰ.not-nil

Memᴰ-insert_by_date :
    (x y : Dated) (xs : List Dated) → (x ≡ y) ⊎ Memᴰ x xs → Memᴰ x (Sql.insert_by_date y xs)
unfolding Sql.insert_by_date
Memᴰ-insert_by_date x y [] h = (Memᴰ-cons x y []).1 h
Memᴰ-insert_by_date x y (z ∷ zs) h = ground (
  arith,
  Memᴰ-insert_by_date x y zs,
  Memᴰ-cons x z zs,
  Memᴰ-cons x y (z ∷ zs),
  Memᴰ-cons x z (Sql.insert_by_date y zs),
)

Memᴰ-order_by_date : (x : Dated) (xs : List Dated) → Memᴰ x xs → Memᴰ x (Sql.order_by_date xs)
unfolding Sql.order_by_date
Memᴰ-order_by_date x [] m = m
Memᴰ-order_by_date x (y ∷ ys) m = ground (
  arith,
  Memᴰ-cons x y ys,
  Memᴰ-order_by_date x ys,
  Memᴰ-insert_by_date x y (Sql.order_by_date ys),
)

Memᴰ-referrers_of :
    (ns : String) (subject d : Digest) (c : ReferrerColumns) (t : Table Key ReferrerColumns)
    → lookup (ns, d) t ≡ some c
    → c.subject_digest ≡ subject
    → Memᴰ (c.created_at, referrer_row d c) (Sql.referrers_of ns subject t)
unfolding Sql.referrers_of lookup pair_eq
Memᴰ-referrers_of ns subject d c [] h e = ground arith
Memᴰ-referrers_of ns subject d c (((n, k), b) ∷ t) h e =
    let rest = Sql.referrers_of ns subject t in
    ground (
      arith,
      Memᴰ-referrers_of ns subject d c t,
      Memᴰ-cons {A = Dated} (c.created_at, referrer_row d c) (b.created_at, referrer_row k b) rest,
    )

Memᴰ-descriptors :
    (n : ℕ) (row : ReferrerRow) (rows : List Dated)
    → Memᴰ (n, row) rows
    → Memᴰ (descriptor row) (descriptors (undated rows))
unfolding descriptors
Memᴰ-descriptors n row [] m = elim m [ ]
Memᴰ-descriptors n row ((k, r) ∷ rows) (Memᴰ.head e) = Memᴰ.head (ap (λ x. descriptor x.1) e)
Memᴰ-descriptors n row ((k, r) ∷ rows) (Memᴰ.tail m) = Memᴰ.tail (Memᴰ-descriptors n row rows m)

Memᴰ-of_type :
    (x : Descriptor) (xs : List Descriptor) → Memᴰ x xs → Memᴰ x (of_type x.artifact_type xs)
unfolding of_type
Memᴰ-of_type x [] m = m
Memᴰ-of_type x (y ∷ ys) m =
    ground (arith, Memᴰ-of_type x ys, Memᴰ-cons x y ys, Memᴰ-cons x y (of_type x.artifact_type ys))

Memᴰ-list_result :
    (t : String) (x : Descriptor) (xs : List Descriptor)
    → Memᴰ x xs
    → (t ≡ "") ⊎ (t ≡ x.artifact_type)
    → Memᴰ x (list_result t xs).manifests
Memᴰ-list_result t x xs m h = ground (arith, Memᴰ-of_type x xs)

-- A referrer is listed under its subject if the filter lets its artifact type pass.
pub listed :
    (ns : String) (d : Digest) (c : ReferrerColumns) (t : String) (db : Db)
    → lookup (ns, d) db.manifest_referrers ≡ some c
    → (t ≡ "") ⊎ (t ≡ c.artifact_type)
    → Memᴰ
        (descriptor (referrer_row d c))
        (list_result t
          (descriptors (undated (Sql.list_referrers ns c.subject_digest db)))).manifests
unfolding Sql.list_referrers
listed ns d c t db h f =
    let rows = Sql.referrers_of ns c.subject_digest db.manifest_referrers in
    let there = Memᴰ-referrers_of ns c.subject_digest d c db.manifest_referrers h refl in
    Memᴰ-list_result t (descriptor (referrer_row d c))
      (descriptors (undated (Sql.order_by_date rows)))
      (Memᴰ-descriptors c.created_at (referrer_row d c) (Sql.order_by_date rows)
        (Memᴰ-order_by_date (c.created_at, referrer_row d c) rows there))
      f

-- A descriptor of the digest is in a listing.
unfoldable pub describes : Digest → List Descriptor → Bool
describes d [] = false
describes d (x ∷ xs) = (x.digest == d) || describes d xs

describes-descriptors :
    (d : Digest) (rows : List Dated)
    → describes d (descriptors (undated rows)) ≡ Listing.listed d rows
unfolding describes descriptors Listing.listed
describes-descriptors d [] = refl
describes-descriptors d ((c, row) ∷ rows) = ground (arith, describes-descriptors d rows)

describes-of_type :
    (d : Digest) (t : String) (xs : List Descriptor)
    → describes d xs ≡ false
    → describes d (of_type t xs) ≡ false
unfolding describes of_type
describes-of_type d t [] h = refl
describes-of_type d t (x ∷ xs) h = ground (arith, describes-of_type d t xs)

listed-removed :
    (ns : String) (subject d : Digest) (t : Table Key ReferrerColumns)
    → lookup (ns, d) t ≡ none
    → Listing.listed d (Sql.referrers_of ns subject t) ≡ false
unfolding Listing.listed Sql.referrers_of lookup pair_eq
listed-removed ns subject d [] h = refl
listed-removed ns subject d (((n, e), c) ∷ t) h = ground (arith, listed-removed ns subject d t)

-- A digest without a row is in no listing.
pub unlisted :
    (ns : String) (subject d : Digest) (t : String) (db : Db)
    → lookup (ns, d) db.manifest_referrers ≡ none
    → describes d
        (list_result t (descriptors (undated (Sql.list_referrers ns subject db)))).manifests
      ≡ false
unfolding Sql.list_referrers
unlisted ns subject d t db h =
    let rows = Sql.referrers_of ns subject db.manifest_referrers in
    let all = descriptors (undated (Sql.order_by_date rows)) in
    let none_there : describes d all ≡ false =
      describes-descriptors d (Sql.order_by_date rows)
      ∙ listed-order_by_date d rows
      ∙ listed-removed ns subject d db.manifest_referrers h in
    ground (arith, describes-of_type d t all)
