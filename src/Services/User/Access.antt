-- ===== src/Services/User/Access.antt =====
-- Who may change what of an account.
use wordotron_api.Prelude.{
  ◌≡◌, refl, ap, ◌∙◌, Bool, false, not, ◌&&◌, ◌||◌, none, arith, List, [], ◌∷◌, map, map_if,
  keep_if, inl, inr, is_some, ◌==◌, Bool-cases,
}
use wordotron_api.Prelude.Exec.{Result, ok, >>=-eq-ok, map_error, on_result-eq-ok}
use wordotron_api.Errors.{GoError}
use wordotron_api.Models.{Uuid, Time, Role, User}
use wordotron_api.Db.{Db, Tables, UserRow, now, statement}
use wordotron_api.Db.Users.{
  has_id, set_user, change_user, update_row as update_columns, update_user, UpdateUserParams,
}
use wordotron_api.Db.Tokens.Laws.{statement-eq-ok}
use wordotron_api.Repository.Users.{update as update_account, update_error}
use wordotron_api.Services.World.{World, refuse_if-eq-ok}
use wordotron_api.Services.Auth.{Wiring}
use wordotron_api.Services.User.{
  Actor, is_admin, UpdateUserInput, is_outsider, deactivates, is_unknown_role, trimmed, authorize,
  update, check_update, check_values, check_self, change_row, after_update,
}

-- The rows outside an update.
keep_if-map_if_other :
    {A : Type 0} (p : A → Bool) (f : A → A) (xs : List A)
    → ((x : A) → p (f x) ≡ p x)
    → keep_if (λ x. not (p x)) (map_if p f xs) ≡ keep_if (λ x. not (p x)) xs
keep_if-map_if_other p f [] h = refl
keep_if-map_if_other p f (x ∷ xs) h = ground (arith, h x, keep_if-map_if_other p f xs h)

-- What an update keeps of every row.
map-map_if :
    {A B : Type 0} (g : A → B) (p : A → Bool) (f : A → A) (xs : List A)
    → ((x : A) → g (f x) ≡ g x)
    → map g (map_if p f xs) ≡ map g xs
map-map_if g p f [] h = refl
map-map_if g p f (x ∷ xs) h = ground (arith, h x, map-map_if g p f xs h)

-- The columns that only an administrator writes.
abbrev pub privileges : UserRow → Role × Bool
privileges row = (row.role, row.is_active)

-- An UPDATE that ends well.
tables-change_user :
    (arg : UpdateUserParams) (id : Uuid) (at : Time) (t : Tables) {row : UserRow}
    → (change_user arg id at t).0 ≡ ok row
    → (change_user arg id at t).1 ≡ set_user arg.id (update_columns arg) at t
unfolding change_user
tables-change_user arg id at t h = ground arith

module _ {S : Type 0} (wiring : Wiring S) where
  authorize-eq-ok :
      (actor : Actor) (id : Uuid) (w : World S)
      → (authorize wiring actor id w).0 ≡ ok tt
      → (is_outsider actor id ≡ false) × ((authorize wiring actor id w).1 ≡ w)
  unfolding authorize
  authorize-eq-ok actor id w h = (ground arith, ground arith)

  check_self-eq-ok :
      (actor : Actor) (id : Uuid) (input : UpdateUserInput) (w : World S)
      → (check_self wiring actor id input w).0 ≡ ok tt
      → ((actor.id == id && deactivates input.is_active) ≡ false)
        × ((check_self wiring actor id input w).1 ≡ w)
  check_self-eq-ok actor id input w h = (ground arith, ground arith)

  check_update-eq-ok :
      (actor : Actor) (id : Uuid) (input : UpdateUserInput) (w : World S)
      → (check_update wiring actor id input w).0 ≡ ok tt
      → ((not (is_admin actor) && (is_some input.role || is_some input.is_active)) ≡ false)
        × (is_unknown_role input.role ≡ false)
        × ((actor.id == id && deactivates input.is_active) ≡ false)
        × ((check_update wiring actor id input w).1 ≡ w)
  check_update-eq-ok actor id input w h =
      let (privileged, chain) = refuse_if-eq-ok _ _ (check_values wiring actor id input) w h in
      let (known, chain') =
        refuse_if-eq-ok _ _ (check_self wiring actor id input) w (rw chain at h) in
      let (self, same) = check_self-eq-ok actor id input w (rw (chain ∙ chain') at h) in
      (
        privileged,
        known,
        self,
        ap (λ (x : Result GoError (Unit {0}) × World S). x.1) (chain ∙ chain') ∙ same,
      )

  abbrev params : Uuid → UpdateUserInput → UpdateUserParams
  params id input = record {
    id = id;
    full_name = trimmed input.full_name;
    avatar_url = none;
    role = input.role;
    is_active = input.is_active;
  }

  tables-change_row :
      (id : Uuid) (input : UpdateUserInput) (w : World S) {user : User}
      → (change_row wiring id input w).0 ≡ ok user
      → (change_row wiring id input w).1.db.tables
        ≡ set_user id (update_columns (params id input)) (now w.db) w.db.tables
  unfolding update_account update_user
  tables-change_row id input w h =
      let change = change_user (params id input) in
      let (row, changed, made, chain) =
        >>=-eq-ok (map_error update_error (statement change)) _ w.db h in
      let (ran, after) =
        statement-eq-ok change w.db
          (on_result-eq-ok update_error (statement change w.db).0 changed) in
      rw (chain, after) (tables-change_user (params id input) _ (now w.db) w.db.tables ran)

  db-after_update :
      (id : Uuid) (input : UpdateUserInput) (user : User) (w : World S)
      → (after_update wiring id input user w).1.db ≡ w.db
  db-after_update id input user w =
      elim (Bool-cases (deactivates input.is_active || is_some input.role)) [
        | inl p ↦ rw p refl
        | inr p ↦ rw p refl
      ]

  -- What stands behind an update that ends well.
  update-eq-ok :
      (actor : Actor) (id : Uuid) (input : UpdateUserInput) (w : World S) {user : User}
      → (update wiring actor id input w).0 ≡ ok user
      → (is_outsider actor id ≡ false)
        × ((not (is_admin actor) && (is_some input.role || is_some input.is_active)) ≡ false)
        × (is_unknown_role input.role ≡ false)
        × ((actor.id == id && deactivates input.is_active) ≡ false)
        × ((update wiring actor id input w).1.db.tables
            ≡ set_user id (update_columns (params id input)) (now w.db) w.db.tables)
  unfolding update
  update-eq-ok actor id input w h =
      let (_, authorized, checked, chain) = >>=-eq-ok (authorize wiring actor id) _ w h in
      let (insider, same) = authorize-eq-ok actor id w authorized in
      let u : World S = (authorize wiring actor id w).1 in
      let (_, allowed, changed, chain') =
        >>=-eq-ok (check_update wiring actor id input) _ u checked in
      let (privileged, known, self, same') = check_update-eq-ok actor id input u allowed in
      let v : World S = (check_update wiring actor id input u).1 in
      let (user, written, rest, chain'') =
        >>=-eq-ok (change_row wiring id input) (after_update wiring id input) v changed in
      (
        insider,
        privileged,
        known,
        self,
        ap (λ (x : Result GoError User × World S). x.1.db.tables) (chain ∙ chain' ∙ chain'')
            ∙ ap (λ (x : Db). x.tables)
                (db-after_update id input user (change_row wiring id input v).1)
            ∙ tables-change_row id input v written
            ∙ ap
                (λ (x : World S).
                  set_user id (update_columns (params id input)) (now x.db) x.db.tables)
                (same' ∙ same),
      )

  not_privileged :
      (input : UpdateUserInput)
      → (is_some input.role || is_some input.is_active) ≡ false
      → (input.role ≡ none) × (input.is_active ≡ none)
  not_privileged input h = (ground arith, ground arith)

  -- An update that ends well for a caller who is not an administrator is of the caller's own account,
  -- changes no row but that of the account, and changes the role and the activation of no row at all.
  pub update_own :
      (actor : Actor) (id : Uuid) (input : UpdateUserInput) (w : World S) (user : User)
      → is_admin actor ≡ false
      → (update wiring actor id input w).0 ≡ ok user
      → (actor.id ≡ id)
        × (map privileges (update wiring actor id input w).1.db.tables.users
            ≡ map privileges w.db.tables.users)
        × (keep_if (λ row. not (has_id id row)) (update wiring actor id input w).1.db.tables.users
            ≡ keep_if (λ row. not (has_id id row)) w.db.tables.users)
  unfolding is_outsider
  update_own actor id input w user plain h =
      let (insider, privileged, known, self, after) = update-eq-ok actor id input w h in
      let (role, active) = not_privileged input (ground arith) in
      (
        ground arith,
        rw after
            (map-map_if privileges (has_id id) _ w.db.tables.users (λ row. rw (role, active) refl)),
        rw after (keep_if-map_if_other (has_id id) _ w.db.tables.users (λ row. refl)),
      )
