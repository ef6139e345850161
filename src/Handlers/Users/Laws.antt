-- ===== src/Handlers/Users/Laws.antt =====
-- What an endpoint of the accounts can do for a caller.
use wordotron_api.Prelude.{◌≡◌, ap, ◌∙◌, false, not, some, map, keep_if}
use wordotron_api.Prelude.Exec.{Result, ok, err, lift, >>=-eq-ok}
use wordotron_api.Text.{eqs}
use wordotron_api.Errors.{GoError}
use wordotron_api.Models.{Uuid, role_admin}
use wordotron_api.Auth.Session.{Uuids}
use wordotron_api.Auth.Token.{Claims, user_id_of}
use wordotron_api.Db.Users.{has_id}
use wordotron_api.Services.Auth.{Wiring}
use wordotron_api.Services.User.{Actor, UpdateUserInput, is_admin, update as update_user}
use wordotron_api.Services.User.Access.{privileges, update_own}
use wordotron_api.Services.User.Files.{Site, on_world, FileWiring}
use wordotron_api.Serializers.{UpdateUserRequest, UserResponse}
use wordotron_api.Handlers.{Request, Body, Answer, bind, claims_from, actor_of, actor_from}
use wordotron_api.Handlers.Users.{update_me, update_account}

-- The caller is the user of the claims, with their role.
actor_of-eq-ok :
    (claims : Claims) (r : Result GoError Uuid) {actor : Actor}
    → actor_of claims r ≡ ok actor
    → (r ≡ ok actor.id) × (actor.role ≡ claims.role)
actor_of-eq-ok claims (ok id) h = (cc, cc)
actor_of-eq-ok claims (err e) h = absurd (cc)

actor_from-eq-ok :
    (uuids : Uuids) (request : Request) {claims : Claims} {actor : Actor}
    → request.claims ≡ some claims
    → actor_from uuids request ≡ ok actor
    → (user_id_of uuids claims ≡ ok actor.id) × (actor.role ≡ claims.role)
unfolding actor_from claims_from
actor_from-eq-ok uuids request {claims = claims} known h =
    actor_of-eq-ok claims (user_id_of uuids claims) (rw (known, actor_from, claims_from) at h)

module _ {S F : Type 0} (wiring : Wiring S) (files : FileWiring F) where
  -- An update of the own profile that ends well, for a caller whose claims are not of an administrator, is
  -- of the user of the claims: it changes no other row, the role and the activation of no row at all,
  -- and no file.
  pub update_me-own :
      (request : Request) (body : Body UpdateUserRequest) (s : Site S F) {claims : Claims}
      {answer : Answer UserResponse}
      → request.claims ≡ some claims
      → eqs claims.role role_admin ≡ false
      → (update_me wiring files request body s).0 ≡ ok answer
      → (u : Uuid) × (user_id_of wiring.uuids claims ≡ ok u)
        × (map privileges (update_me wiring files request body s).1.world.db.tables.users
            ≡ map privileges s.world.db.tables.users)
        × (keep_if
              (λ row. not (has_id u row))
              (update_me wiring files request body s).1.world.db.tables.users
            ≡ keep_if (λ row. not (has_id u row)) s.world.db.tables.users)
        × ((update_me wiring files request body s).1.files ≡ s.files)
  unfolding update_me is_admin
  update_me-own request body s known plain h =
      let (actor, found, rest, first) =
        >>=-eq-ok (lift (actor_from wiring.uuids request))
          (λ a. update_account wiring files a a.id body) s h in
      let (caller, role) = actor_from-eq-ok wiring.uuids request known found in
      let (req, bound, rest', second) = >>=-eq-ok (lift (bind body)) _ s rest in
      let input : UpdateUserInput = record {
        full_name = req.full_name;
        role = req.role;
        is_active = req.is_active;
      } in
      let (user, ran, _, third) =
        >>=-eq-ok (on_world (update_user wiring actor actor.id input)) _ s rest' in
      let after =
        ap (λ (r : Result GoError (Answer UserResponse) × Site S F). r.1)
          (first ∙ second ∙ third) in
      let (_, same, others) =
        update_own wiring actor actor.id input s.world user (rw role plain) ran in
      (
        actor.id,
        caller,
        ap (λ (x : Site S F). map privileges x.world.db.tables.users) after ∙ same,
        ap (λ (x : Site S F). keep_if (λ row. not (has_id actor.id row)) x.world.db.tables.users)
              after
            ∙ others,
        ap (λ (x : Site S F). x.files) after,
      )
