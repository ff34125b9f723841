-- ===== src/Metastore/Listing.antt =====
-- What `sqlListReferrers` lists.
use omnistash.Base.{
  ℕ, ◌≤◌, ◌≡◌, refl, ◌∙◌, Bool, false, ◌||◌, Option, none, some, String, arith, List, [], ◌∷◌,
}
use omnistash.Base.{◌==◌, string_eq, pair_eq}
use omnistash.Base.Table.{Table, lookup, IsKeyed}
use omnistash.Metastore.Tables.{Digest, Key, Db, ReferrerColumns}
use omnistash.Metastore.Sql
use omnistash.Metastore.Sql.{Dated}
use omnistash.Metastore.Valid.{IsValid}

-- A digest is among the rows.
unfoldable pub listed : Digest → List Dated → Bool
listed d [] = false
listed d ((c, row) ∷ rows) = (row.digest == d) || listed d rows

-- What the table says of a referrer.
abbrev pub refers : Digest → Option ReferrerColumns → Bool
refers subject none = false
refers subject (some c) = c.subject_digest == subject

-- No row of the list is older.
abbrev pub IsOldest : ℕ → List Dated → Type 0
IsOldest c [] = Unit
IsOldest c (x ∷ xs) = (c ≤ x.0) × IsOldest c xs

abbrev pub IsByDate : List Dated → Type 0
IsByDate [] = Unit
IsByDate (x ∷ xs) = IsOldest x.0 xs × IsByDate xs

listed-insert_by_date :
    (d : Digest) (x : Dated) (xs : List Dated)
    → listed d (Sql.insert_by_date x xs) ≡ ((x.1.digest == d) || listed d xs)
unfolding listed Sql.insert_by_date
listed-insert_by_date d x [] = refl
listed-insert_by_date d x (y ∷ ys) = ground (arith, listed-insert_by_date d x ys)

pub listed-order_by_date :
    (d : Digest) (xs : List Dated) → listed d (Sql.order_by_date xs) ≡ listed d xs
unfolding listed Sql.order_by_date
listed-order_by_date d [] = refl
listed-order_by_date d (x ∷ xs) =
    ground (arith, listed-insert_by_date d x (Sql.order_by_date xs), listed-order_by_date d xs)

listed-referrers_of :
    (ns : String) (subject d : Digest) (t : Table Key ReferrerColumns)
    → IsKeyed t
    → listed d (Sql.referrers_of ns subject t) ≡ refers subject (lookup (ns, d) t)
unfolding listed Sql.referrers_of lookup pair_eq
listed-referrers_of ns subject d [] k = refl
listed-referrers_of ns subject d (((n, e), c) ∷ t) k =
    ground (arith, listed-referrers_of ns subject d t k.1)

older : (a b : ℕ) (xs : List Dated) → a ≤ b → IsOldest b xs → IsOldest a xs
older a b [] h k = tt
older a b (x ∷ xs) h k = (omega arith, older a b xs h k.1)

IsOldest-insert_by_date :
    (c : ℕ) (x : Dated) (xs : List Dated)
    → c ≤ x.0
    → IsOldest c xs
    → IsOldest c (Sql.insert_by_date x xs)
unfolding Sql.insert_by_date
IsOldest-insert_by_date c x [] h k = (h, tt)
IsOldest-insert_by_date c x (y ∷ ys) h k = ground (arith, IsOldest-insert_by_date c x ys h k.1)

insert_by_date-IsByDate :
    (x : Dated) (xs : List Dated) → IsByDate xs → IsByDate (Sql.insert_by_date x xs)
unfolding Sql.insert_by_date
insert_by_date-IsByDate x [] k = (tt, tt)
insert_by_date-IsByDate x (y ∷ ys) k =
    ground
      (arith, insert_by_date-IsByDate x ys k.1, older x.0 y.0 ys, IsOldest-insert_by_date y.0 x ys)

order_by_date-IsByDate : (xs : List Dated) → IsByDate (Sql.order_by_date xs)
unfolding Sql.order_by_date
order_by_date-IsByDate [] = tt
order_by_date-IsByDate (x ∷ xs) =
    insert_by_date-IsByDate x (Sql.order_by_date xs) (order_by_date-IsByDate xs)

-- Of valid tables, the listing of the referrers of a subject has exactly the digests whose row in
-- the namespace names that subject, the oldest row first.
pub list_referrers_lem :
    (ns : String) (subject : Digest) (db : Db)
    → IsValid db
    → ((d : Digest)
        → listed d (Sql.list_referrers ns subject db)
          ≡ refers subject (lookup (ns, d) db.manifest_referrers))
      × IsByDate (Sql.list_referrers ns subject db)
unfolding Sql.list_referrers
list_referrers_lem ns subject db v = (
  λ d.
      listed-order_by_date d (Sql.referrers_of ns subject db.manifest_referrers)
      ∙ listed-referrers_of ns subject d db.manifest_referrers v.referrer_keys,
  order_by_date-IsByDate (Sql.referrers_of ns subject db.manifest_referrers),
)
