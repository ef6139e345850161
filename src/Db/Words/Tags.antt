-- ===== src/Db/Words/Tags.antt =====
-- ListWordTags of app/repository/db/words.sql.go: the tags in use, with how often each is.
use wordotron_api.Prelude.{
  ℕ, ◌+◌, Bool, Option, none, some, List, [], ◌∷◌, ◌++◌, leb, keep_if, if◌then◌else◌,
}
use wordotron_api.Prelude.Int.{ℤ, pos}
use wordotron_api.Prelude.Exec.{Exec}
use wordotron_api.Text.{GoString, eqs}
use wordotron_api.Errors.{GoError}
use wordotron_api.Db.{Db, WordRow, statement, query}
use wordotron_api.Db.Query.{unless_null, order_by, then_by, limit_offset}

-- ListWordTagsRow
pub record TagUse : Type 0 where
  pub tag : GoString
  pub uses : ℕ

-- The rows of UNNEST(tags): none for a NULL.
abbrev pub unnest : List WordRow → List GoString
unnest [] = []
unnest (row ∷ rows) = elim row.tags [ none ↦ unnest rows | some tags ↦ tags ++ unnest rows ]

unfoldable pub add_use : GoString → List TagUse → List TagUse
unfolding eqs
add_use tag [] = record { tag = tag; uses = 1 } ∷ []
add_use tag (g ∷ groups) =
    let rest = add_use tag groups in
    if eqs g.tag tag then record { tag = g.tag; uses = g.uses + 1 } ∷ groups else g ∷ rest

-- GROUP BY tag, with COUNT(*).
unfoldable pub group_tags : List GoString → List TagUse
unfolding add_use
group_tags [] = []
group_tags (tag ∷ tags) = add_use tag (group_tags tags)

-- ORDER BY uses DESC, tag ASC
unfoldable pub tag_le : (GoString → GoString → Bool) → TagUse → TagUse → Bool
tag_le le x y = then_by (leb y.uses x.uses) (leb x.uses y.uses) (le x.tag y.tag)

unfoldable pub list_word_tags :
    (GoString → GoString → Bool) → Option GoString → ℤ → Exec GoError Db (List TagUse)
unfolding eqs group_tags tag_le order_by limit_offset
list_word_tags le language limit = statement (
    query (λ t. limit_offset limit (pos 0) (
      order_by (tag_le le) (
        group_tags (
          unnest (keep_if (λ (row : WordRow). unless_null language (eqs row.language)) t.words))))))
