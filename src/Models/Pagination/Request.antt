-- ===== src/Models/Pagination/Request.antt =====
-- ParsePageParams of app/lib/utils.go, with the readers of the query string as a parameter.
use wordotron_api.Prelude.{
  Bool, not, ◌||◌, List, [], ◌∷◌, ◌++◌, String, ltb, length, any, if◌then◌else◌,
}
use wordotron_api.Prelude.Int.{ℤ, pos, ltz}
use wordotron_api.Prelude.Exec.{Result, ok, err}
use wordotron_api.Text.{GoString, codes, eqs, trim_space, to_lower}
use wordotron_api.Errors.{GoError, FieldError, fail, validation_error}
use wordotron_api.Models.Pagination.{
  PageParams, normalize, order_valid, default_page, default_limit, max_limit, sort_desc,
}

pub record SortWhitelist : Type 0 where
  pub allowed : List GoString
  pub default : GoString
  -- the message for another value, which lists the allowed ones
  pub message : String

-- fiber.Query for an int and for a string: the value of a key, or the default.
pub record QueryReader : Type 0 where
  pub int : GoString → ℤ → ℤ
  pub text : GoString → GoString → GoString

unfoldable pub contains_sort : SortWhitelist → GoString → Bool
unfolding eqs
contains_sort w field = any (λ a. eqs a field) w.allowed

unfoldable pub read_params : QueryReader → SortWhitelist → PageParams
unfolding trim_space to_lower
read_params q w = record {
  page = q.int (codes "page") (pos default_page);
  limit = q.int (codes "limit") (pos default_limit);
  sort = trim_space (q.text (codes "sort") w.default);
  order = to_lower (trim_space (q.text (codes "order") sort_desc));
  search = trim_space (q.text (codes "search") []);
}

-- `if wrong { fields = append(fields, e) }`
abbrev pub field_if : Bool → FieldError → List FieldError
field_if wrong e = if wrong then e ∷ [] else []

unfoldable pub page_problems : SortWhitelist → PageParams → List FieldError
unfolding contains_sort order_valid
page_problems w p =
    field_if (ltz p.page (pos 1)) (record { field = "page"; message = "must be 1 or greater" })
    ++ (field_if (ltz p.limit (pos 1) || ltz (pos max_limit) p.limit)
          (record { field = "limit"; message = "must be between 1 and 100" })
        ++ (field_if (not (contains_sort w p.sort)) (record { field = "sort"; message = w.message })
            ++ (field_if (not (order_valid p.order))
                  (record { field = "order"; message = "must be asc or desc" })
                ++ field_if (ltb 128 (length p.search))
                    (record { field = "search"; message = "must be at most 128 characters" }))))

abbrev pub settle : SortWhitelist → PageParams → List FieldError → Result GoError PageParams
settle w p [] = ok (normalize p w.default)
settle w p (e ∷ fields) = err (fail (validation_error (e ∷ fields)))

unfoldable pub parse_page_params : QueryReader → SortWhitelist → Result GoError PageParams
unfolding read_params page_problems validation_error normalize
parse_page_params q w = settle w (read_params q w) (page_problems w (read_params q w))
