-- ===== src/Services/User/Files/Laws.antt =====
-- What a deletion of an account leaves.
use wordotron_api.Prelude.{
  ◌≡◌, refl, sym, ap, ◌∙◌, Bool, true, false, not, ◌&&◌, Option, none, some, arith, List, [], ◌∷◌,
  map, map_if, any, find?, keep_if, ◌⊎◌, inl, inr, ◌==◌, Bool-cases, ℕ,
}
use mathlib.Core.Path.{subst}
use wordotron_api.Prelude.Exec.{Result, ok, ◌>>◌, inspect, >>=-eq-ok, map_error, on_result-eq-ok}
use wordotron_api.Errors.{GoError}
use wordotron_api.Models.{Uuid, Time, User, Token}
use wordotron_api.Db.{Db, Tables, UserRow, WordRow, UserWordRow, OauthAccountRow, now}
use wordotron_api.Db.Users.{has_id, is_creator, forget_creator, without_user, delete_user}
use wordotron_api.Db.Tokens.Laws.{statement-eq-ok}
use wordotron_api.Repository.Users.{delete as delete_row, get_by_id, refuse_zero, internal_wrap}
use wordotron_api.Repository.Users.Laws.{get_by_id-eq-ok, tables-get_by_id}
use wordotron_api.Text.{GoString}
use wordotron_api.Services.World.{World, on_db, refuse_if}
use wordotron_api.Services.Auth.{Wiring, revoke_all}
use wordotron_api.Services.User.{Actor, is_admin}
use wordotron_api.Services.User.Files.{
  Site, on_world, FileWiring, OnSite, delete, remove, remove_found, spare_self, drop_avatar,
}

-- Nothing of the account is left.
abbrev pub IsGone : Uuid → Tables → Type 0
IsGone id t =
    (any (has_id id) t.users ≡ false)
    × (any (λ (r : Token). r.user_id == id) t.password_resets ≡ false)
    × (any (λ (r : Token). r.user_id == id) t.email_verifications ≡ false)
    × (any (λ (r : UserWordRow). r.user_id == id) t.user_words ≡ false)
    × (any (λ (r : OauthAccountRow). r.user_id == id) t.oauth_accounts ≡ false)
    × (any (is_creator id) t.words ≡ false)

-- What others have, and what is shared: of a word, all but its creator and the time of its change.
abbrev pub OthersStay : Uuid → Tables → Tables → Type 0
OthersStay id before after =
    (after.users ≡ keep_if (λ row. not (has_id id row)) before.users)
    × (after.user_words ≡ keep_if (λ r. not (r.user_id == id)) before.user_words)
    × (map (forget_creator 0) after.words ≡ map (forget_creator 0) before.words)
    × (after.word_senses ≡ before.word_senses)

any-removed :
    {A : Type 0} (p : A → Bool) (xs : List A) → any p (keep_if (λ x. not (p x)) xs) ≡ false
any-removed p [] = refl
any-removed p (x ∷ xs) = ground (arith, any-removed p xs)

any-forgotten :
    (id : Uuid) (at : Time) (xs : List WordRow)
    → any (is_creator id) (map_if (is_creator id) (forget_creator at) xs) ≡ false
any-forgotten id at [] = refl
any-forgotten id at (x ∷ xs) = elim (Bool-cases (is_creator id x)) [
  | inl p ↦ rw (p, any-forgotten id at xs) refl
  | inr p ↦ rw (p, p, any-forgotten id at xs) refl
]

map-forgotten :
    (id : Uuid) (at : Time) (xs : List WordRow)
    → map (forget_creator 0) (map_if (is_creator id) (forget_creator at) xs)
      ≡ map (forget_creator 0) xs
map-forgotten id at [] = refl
map-forgotten id at (x ∷ xs) = elim (Bool-cases (is_creator id x)) [
  | inl p ↦ rw (p, map-forgotten id at xs) refl
  | inr p ↦ rw (p, map-forgotten id at xs) refl
]

without_user-IsGone : (id : Uuid) (at : Time) (t : Tables) → IsGone id (without_user id at t)
without_user-IsGone id at t = (
  any-removed (has_id id) t.users,
  any-removed (λ (r : Token). r.user_id == id) t.password_resets,
  any-removed (λ (r : Token). r.user_id == id) t.email_verifications,
  any-removed (λ (r : UserWordRow). r.user_id == id) t.user_words,
  any-removed (λ (r : OauthAccountRow). r.user_id == id) t.oauth_accounts,
  any-forgotten id at t.words,
)

refuse_zero-eq-ok :
    (e : GoError) (n : ℕ) (db : Db) → (refuse_zero e n db).0 ≡ ok tt → (refuse_zero e n db).1 ≡ db
refuse_zero-eq-ok e n db h = ground arith

-- A deletion of the row that ends well.
tables-delete_row :
    (id : Uuid) (db : Db)
    → (delete_row id db).0 ≡ ok tt
    → (delete_row id db).1.tables ≡ without_user id (now db) db.tables
unfolding delete_row delete_user
tables-delete_row id db h =
    let (affected, ran, rest, chain) =
      >>=-eq-ok (map_error (internal_wrap "delete user") (delete_user id)) _ db h in
    let (_, after) =
      statement-eq-ok _ db
        (on_result-eq-ok (internal_wrap "delete user") (delete_user id db).0 ran) in
    ap (λ (r : Result GoError (Unit {0}) × Db). r.1.tables) chain
    ∙ ap (λ (d : Db). d.tables) (refuse_zero-eq-ok _ affected _ rest)
    ∙ after

-- Who may delete an account.
abbrev pub MayDelete : Actor → Uuid → Type 0
MayDelete actor id =
    ((is_admin actor ≡ true) × ((actor.id == id) ≡ false))
    ⊎ ((is_admin actor ≡ false) × ((actor.id == id) ≡ true))

may_delete :
    (actor : Actor) (id : Uuid)
    → (not (is_admin actor) && not (actor.id == id)) ≡ false
    → (is_admin actor && actor.id == id) ≡ false
    → MayDelete actor id
may_delete actor id h k = elim (Bool-cases (is_admin actor)) [
  | inl p ↦ inl (p, rw p at k)
  | inr p ↦ inr (p, ground (arith, rw p at h))
]

module _ {S F : Type 0} (wiring : Wiring S) (files : FileWiring F) where
  drop_avatar-world :
      (url : Option GoString) (s : Site S F) → (drop_avatar wiring files url s).1.world ≡ s.world
  drop_avatar-world none s = refl
  drop_avatar-world (some url) s = ground arith

  tables-remove :
      (id : Uuid) (user : User) (s : Site S F)
      → (remove wiring files id user s).0 ≡ ok tt
      → (remove wiring files id user s).1.world.db.tables
        ≡ without_user id (now s.world.db) s.world.db.tables
  tables-remove id user s h =
      let (_, gone, rest, chain) =
        >>=-eq-ok (on_world (on_db (delete_row id)))
          (λ _.
            inspect (on_world (revoke_all wiring id))
              (λ _. drop_avatar wiring files user.avatar_url))
          s h in
      ap (λ (r : Result GoError (Unit {0}) × Site S F). r.1.world.db.tables) chain
      ∙ ap (λ (w : World S). w.db.tables) (drop_avatar-world user.avatar_url _)
      ∙ tables-delete_row id s.world.db gone

  -- A guard on the world that lets a chain end well.
  guard-eq-ok :
      {A : Type 0} (refused : Bool) (e : GoError) (m : OnSite wiring files A) (s : Site S F) {a : A}
      → ((on_world (refuse_if refused e) >> m) s).0 ≡ ok a
      → (refused ≡ false) × ((on_world (refuse_if refused e) >> m) s ≡ m s)
  guard-eq-ok true e m s h = absurd (cc)
  guard-eq-ok false e m s h = (refl, refl)

  tables-delete :
      (actor : Actor) (id : Uuid) (s : Site S F)
      → (delete wiring files actor id s).0 ≡ ok tt
      → MayDelete actor id
        × ((row : UserRow) × (find? (has_id id) s.world.db.tables.users ≡ some row))
        × ((at : Time) × ((delete wiring files actor id s).1.world.db.tables
              ≡ without_user id at s.world.db.tables))
  unfolding delete
  tables-delete actor id s h =
      let (stranger, first) = guard-eq-ok _ _ (spare_self wiring files actor id) s h in
      let (himself, second) = guard-eq-ok _ _ (remove_found wiring files id) s (rw first at h) in
      let (user, found, removed, third) =
        >>=-eq-ok (on_world (on_db (get_by_id id))) (remove wiring files id) s
          (rw (first ∙ second) at h) in
      let (row, there, _) = get_by_id-eq-ok id s.world.db found in
      let read : Site S F = (on_world (on_db (get_by_id id)) s).1 in
      (
        may_delete actor id stranger himself,
        (row, there),
        (
          now read.world.db,
          ap (λ (r : Result GoError (Unit {0}) × Site S F). r.1.world.db.tables)
                (first ∙ second ∙ third)
              ∙ tables-remove id user read removed
              ∙ ap (without_user id (now read.world.db)) (tables-get_by_id id s.world.db),
        ),
      )

  -- A deletion that ends well was asked for by an administrator for another account, or by the user of
  -- the account, who is not an administrator; the account was there, and nothing of it is left: no row,
  -- link, entry of a list or identity is of it, and no word names it. The other accounts and their
  -- lists are as before, and so are the words but for their creators and times, and all senses.
  pub delete-eq-ok :
      (actor : Actor) (id : Uuid) (s : Site S F)
      → (delete wiring files actor id s).0 ≡ ok tt
      → MayDelete actor id
        × ((row : UserRow) × (find? (has_id id) s.world.db.tables.users ≡ some row))
        × IsGone id (delete wiring files actor id s).1.world.db.tables
        × OthersStay id s.world.db.tables (delete wiring files actor id s).1.world.db.tables
  delete-eq-ok actor id s h =
      let before = s.world.db.tables in
      let (allowed, there, (at, after)) = tables-delete actor id s h in
      (
        allowed,
        there,
        subst (IsGone id) (sym after) (without_user-IsGone id at before),
        subst (OthersStay id before) (sym after)
            (refl, refl, map-forgotten id at before.words, refl),
      )
