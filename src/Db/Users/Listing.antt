-- ===== src/Db/Users/Listing.antt =====
-- `ListUsers` and `CountUsers` of app/repository/db/users.sql.go.
use wordotron_api.Prelude.{
  ℕ, Bool, not, ◌&&◌, ◌||◌, Option, List, leb, keep_if, length, if◌then◌else◌,
}
use wordotron_api.Prelude.Int.{ℤ}
use wordotron_api.Prelude.Exec.{ok, Exec}
use wordotron_api.Text.{GoString, codes, eqs}
use wordotron_api.Errors.{GoError}
use wordotron_api.Models.Pagination.{sort_asc, sort_desc}
use wordotron_api.Db.{Db, UserRow, statement, query}
use wordotron_api.Db.Query.{unless_null, ilike_around, order_by, then_by, limit_offset}

pub record UserFilter : Type 0 where
  pub search : Option GoString
  pub role : Option GoString
  pub is_active : Option Bool

abbrev same_flag : Bool → Bool → Bool
same_flag a b = if a then b else not b

-- The WHERE clause of both queries.
unfoldable pub admits : UserFilter → UserRow → Bool
unfolding ilike_around eqs
admits f row =
    unless_null f.search (λ s. ilike_around s row.email || ilike_around s row.full_name)
    && unless_null f.role (eqs row.role)
    && unless_null f.is_active (same_flag row.is_active)

unfoldable pub count_users : UserFilter → Exec GoError Db ℕ
unfolding admits
count_users f = statement (query (λ t. ok (length (keep_if (admits f) t.users))))

-- The ORDER BY clause, for the collation of the database: the key that the two texts name, if they
-- name one, then the identifier.
unfoldable pub user_le :
    (GoString → GoString → Bool) → GoString → GoString → UserRow → UserRow → Bool
unfolding eqs
user_le le sort order x y =
    let id_le = leb x.id y.id in
    if eqs sort (codes "created_at") && eqs order sort_asc
    then then_by (leb x.created_at y.created_at) (leb y.created_at x.created_at) id_le
    else if eqs sort (codes "created_at") && eqs order sort_desc
    then then_by (leb y.created_at x.created_at) (leb x.created_at y.created_at) id_le
    else if eqs sort (codes "updated_at") && eqs order sort_asc
    then then_by (leb x.updated_at y.updated_at) (leb y.updated_at x.updated_at) id_le
    else if eqs sort (codes "updated_at") && eqs order sort_desc
    then then_by (leb y.updated_at x.updated_at) (leb x.updated_at y.updated_at) id_le
    else if eqs sort (codes "email") && eqs order sort_asc
    then then_by (le x.email y.email) (le y.email x.email) id_le
    else if eqs sort (codes "email") && eqs order sort_desc
    then then_by (le y.email x.email) (le x.email y.email) id_le
    else if eqs sort (codes "full_name") && eqs order sort_asc
    then then_by (le x.full_name y.full_name) (le y.full_name x.full_name) id_le
    else if eqs sort (codes "full_name") && eqs order sort_desc
    then then_by (le y.full_name x.full_name) (le x.full_name y.full_name) id_le
    else id_le

unfoldable pub list_users :
    (GoString → GoString → Bool)
    → UserFilter
    → GoString
    → GoString
    → ℤ
    → ℤ
    → Exec GoError Db (List UserRow)
unfolding admits user_le order_by limit_offset
list_users le f sort order offset limit = statement (
    query (λ t.
      limit_offset limit offset (order_by (user_le le sort order) (keep_if (admits f) t.users))))
