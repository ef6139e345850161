-- ===== src/Repository/Users/Listing.antt =====
-- `List` of app/repository/user_repository.go.
use wordotron_api.Prelude.{ℕ, ◌^◌, Bool, Option, none, some, List, map, if◌then◌else◌}
use wordotron_api.Prelude.Int.{wrap}
use wordotron_api.Prelude.Exec.{Exec, ◌>>=◌, pure, map_error}
use wordotron_api.Text.{GoString, is_empty}
use wordotron_api.Errors.{GoError, internal_error}
use wordotron_api.Models.{User, Role}
use wordotron_api.Models.Pagination.{PageParams, page_offset}
use wordotron_api.Db.{Db}
use wordotron_api.Db.Users.Listing.{UserFilter, list_users, count_users}
use wordotron_api.Repository.Users.{to_domain_user, escape_like, internal_wrap}

pub record ListUsersFilter : Type 0 where
  pub page : PageParams
  pub role : Option Role
  pub is_active : Option Bool

-- The search text as the SQL sees it: its LIKE metacharacters are escaped, and an empty one is NULL.
unfoldable pub filter_of : ListUsersFilter → UserFilter
unfolding escape_like
filter_of f = record {
  search = if is_empty f.page.search then none else some (escape_like f.page.search);
  role = f.role;
  is_active = f.is_active;
}

-- The page and the number of all accounts that the filter admits.
unfoldable pub list :
    (GoString → GoString → Bool) → ListUsersFilter → Exec GoError Db (List User × ℕ)
unfolding list_users count_users filter_of page_offset internal_error to_domain_user
list le f = do
  rows ← map_error (internal_wrap "list users") (
      list_users le (filter_of f) f.page.sort f.page.order (page_offset f.page)
        (wrap (2 ^ 32) f.page.limit))
  total ← map_error (internal_wrap "count users") (count_users (filter_of f))
  pure (map to_domain_user rows, total)
