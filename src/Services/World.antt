-- ===== src/Services/World.antt =====
-- What the services act on: the database, the session store, the clock, the sources of identifiers
-- and of random bytes, and the links that are handed to a user.
use wordotron_api.Prelude.{ℕ, suc, ◌≡◌, refl, Bool, true, false, List, ◌∷◌, if◌then◌else◌}
use wordotron_api.Prelude.Exec.{Result, ok, Exec, ◌>>◌, pure, raise}
use wordotron_api.Text.{GoString}
use wordotron_api.Errors.{GoError}
use wordotron_api.Models.{Uuid, Time}
use wordotron_api.Db.{Db}

pub record World (S : Type 0) : Type 0 where
  pub db : Db
  pub sessions : S
  -- time.Now(), at its successive readings
  pub clock : ℕ → Time
  pub ticks : ℕ
  -- uuid.NewString()
  pub uuid_at : ℕ → Uuid
  pub drawn : ℕ
  -- rand.Read
  pub random : ℕ → Result GoError GoString
  pub reads : ℕ
  -- the links that the log hands out in the place of a mailer
  pub links : List GoString

module _ {S : Type 0} where
  abbrev pub on_db : {A : Type 0} → Exec GoError Db A → Exec GoError (World S) A
  on_db m w = ((m w.db).0, record w { db = (m w.db).1 })

  abbrev pub read_clock : Exec GoError (World S) Time
  read_clock w = (ok (w.clock w.ticks), record w { ticks = suc w.ticks })

  -- A call of the session store, at the time that it reads.
  abbrev pub on_sessions : {A : Type 0} → (Time → Exec GoError S A) → Exec GoError (World S) A
  on_sessions m w = (
    (m (w.clock w.ticks) w.sessions).0,
    record w { sessions = (m (w.clock w.ticks) w.sessions).1; ticks = suc w.ticks },
  )

  abbrev pub draw_uuid : Exec GoError (World S) Uuid
  draw_uuid w = (ok (w.uuid_at w.drawn), record w { drawn = suc w.drawn })

  abbrev pub read_random : Exec GoError (World S) GoString
  read_random w = (w.random w.reads, record w { reads = suc w.reads })

  -- The salt of a hash.
  abbrev pub draw_salt : Exec GoError (World S) ℕ
  draw_salt w = (ok w.reads, record w { reads = suc w.reads })

  abbrev pub send_link : GoString → Exec GoError (World S) (Unit {0})
  send_link link w = (ok tt, record w { links = link ∷ w.links })

  -- `if refused { return e }`
  abbrev pub refuse_if : Bool → GoError → Exec GoError (World S) (Unit {0})
  refuse_if refused e = if refused then raise e else pure tt

  -- A chain behind a guard that ends well got past it.
  pub refuse_if-eq-ok :
      {A : Type 0} (refused : Bool) (e : GoError) (m : Exec GoError (World S) A) (w : World S)
      {a : A}
      → ((refuse_if refused e >> m) w).0 ≡ ok a
      → (refused ≡ false) × ((refuse_if refused e >> m) w ≡ m w)
  refuse_if-eq-ok true e m w h = absurd (cc)
  refuse_if-eq-ok false e m w h = (refl, refl)
