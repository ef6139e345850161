-- ===== src/Redis.antt =====
-- The Redis server and its client, which the repository does not contain: an interface with the
-- commands that the program sends, and what their documentation says of keys, values and expiry.
-- `run` sends commands in one round trip, in order, as a pipeline or MULTI does; a connection can
-- fail, and nothing is assumed of the keys then. A duration is what the client sends of it: whole
-- milliseconds for SET, whole seconds for EXPIRE, rounded down, but up to one where it is less.
use wordotron_api.Prelude.{
  ℕ, zero, suc, ◌+◌, ◌-◌, ◌*◌, ◌/◌, ◌^◌, ◌&&◌, ◌≡◌, Bool, true, Option, none, some, List, [], ◌∷◌,
  ltb, if◌then◌else◌, length, is_some,
}
use wordotron_api.Prelude.Exec.{ok, Exec}
use wordotron_api.Prelude.Int.{ℤ, pos, negsuc}
use wordotron_api.Text.{GoString, eqs}
use wordotron_api.Text.Decimal.{format_int, parse_int}
use wordotron_api.Errors.{GoError}
use wordotron_api.Models.{Time, second}

pub data Cmd : Type 0 where
  hset : GoString → GoString → GoString → Cmd
  hget hdel : GoString → GoString → Cmd
  hlen del get exists getdel : GoString → Cmd
  incr ttl : GoString → Cmd
  expire expire_nx : GoString → Time → Cmd
  set : GoString → GoString → Time → Cmd

pub data Reply : Type 0 where
  int : ℕ → Reply
  -- the number -n
  negative : ℕ → Reply
  bulk : GoString → Reply
  null okay wrong_type : Reply

pub data Value : Type 0 where
  str : GoString → Value
  hash : List (GoString × GoString) → Value

-- A value, and the time at which it is gone.
pub record Entry : Type 0 where
  pub value : Value
  pub deadline : Option Time

abbrev pub Keyspace : Type 0
Keyspace = GoString → Option Entry

abbrev pub milli : Time
milli = 1_000_000

-- A duration as the client sends it, in whole units.
abbrev pub whole : Time → Time → Time
whole unit d = if ltb 0 d && ltb d unit then unit else d / unit * unit

abbrev pub alive : Time → Option Time → Bool
alive now none = true
alive now (some d) = ltb now d

-- What a command finds at a key at a time.
abbrev pub present : Time → Option Entry → Option Value
present now none = none
present now (some e) = if alive now e.deadline then some e.value else none

-- The deadline that a command keeps.
abbrev pub deadline_of : Time → Option Entry → Option Time
deadline_of now none = none
deadline_of now (some e) = if alive now e.deadline then e.deadline else none

abbrev pub write : GoString → Option Entry → Keyspace → Keyspace
write key e ks k = if eqs key k then e else ks k

abbrev pub field : GoString → List (GoString × GoString) → Option GoString
field f [] = none
field f ((g, v) ∷ h) = if eqs g f then some v else field f h

abbrev pub without_field : GoString → List (GoString × GoString) → List (GoString × GoString)
without_field f [] = []
without_field f ((g, v) ∷ h) =
    let rest = without_field f h in if eqs g f then rest else (g, v) ∷ rest

abbrev pub entry : Value → Option Time → Option Entry
entry v d = some (record { value = v; deadline = d })

abbrev pub bulk_or_null : Option GoString → Reply
bulk_or_null none = null
bulk_or_null (some v) = bulk v

abbrev pub hset_at :
    GoString → GoString → GoString → Option Time → Option Value → Keyspace → Reply × Keyspace
hset_at key f v d none ks = (int 1, write key (entry (hash ((f, v) ∷ [])) none) ks)
hset_at key f v d (some (str s)) ks = (wrong_type, ks)
hset_at key f v d (some (hash h)) ks = (
  int (if is_some (field f h) then 0 else 1),
  write key (entry (hash ((f, v) ∷ without_field f h)) d) ks,
)

abbrev pub hget_at : GoString → Option Value → Reply
hget_at f none = null
hget_at f (some (str s)) = wrong_type
hget_at f (some (hash h)) = bulk_or_null (field f h)

abbrev pub hdel_at : GoString → GoString → Option Time → Option Value → Keyspace → Reply × Keyspace
hdel_at key f d none ks = (int 0, write key none ks)
hdel_at key f d (some (str s)) ks = (wrong_type, ks)
hdel_at key f d (some (hash h)) ks =
    (int (if is_some (field f h) then 1 else 0), write key (entry (hash (without_field f h)) d) ks)

abbrev pub hlen_at : Option Value → Reply
hlen_at none = int 0
hlen_at (some (str s)) = wrong_type
hlen_at (some (hash h)) = int (length h)

abbrev pub get_at : Option Value → Reply
get_at none = null
get_at (some (str s)) = bulk s
get_at (some (hash h)) = wrong_type

abbrev pub count_at : Option Value → Reply
count_at none = int 0
count_at (some v) = int 1

abbrev pub expire_at : GoString → Time → Option Value → Keyspace → Reply × Keyspace
expire_at key d none ks = (int 0, ks)
expire_at key d (some v) ks = (int 1, write key (entry v (some d)) ks)

-- INCR of a number in decimal digits.
abbrev pub incr_number : GoString → Option Time → Option ℤ → Keyspace → Reply × Keyspace
incr_number key d none ks = (wrong_type, ks)
incr_number key d (some (pos n)) ks =
    if ltb (n + 1) (2 ^ 63)
    then (int (n + 1), write key (entry (str (format_int (n + 1))) d) ks)
    else (wrong_type, ks)
incr_number key d (some (negsuc zero)) ks = (int 0, write key (entry (str (format_int 0)) d) ks)
incr_number key d (some (negsuc (suc n))) ks =
    (negative (n + 1), write key (entry (str (b'-' ∷ format_int (n + 1))) d) ks)

abbrev pub incr_at : GoString → Option Time → Option Value → Keyspace → Reply × Keyspace
incr_at key d none ks = (int 1, write key (entry (str (format_int 1)) none) ks)
incr_at key d (some (str s)) ks = incr_number key d (parse_int s) ks
incr_at key d (some (hash h)) ks = (wrong_type, ks)

-- EXPIRE with NX: a deadline that is there stays.
abbrev pub expire_nx_at : GoString → Time → Option Time → Option Value → Keyspace → Reply × Keyspace
expire_nx_at key d deadline none ks = (int 0, ks)
expire_nx_at key d (some old) (some v) ks = (int 0, ks)
expire_nx_at key d none (some v) ks = (int 1, write key (entry v (some d)) ks)

-- TTL, to the nearest second.
abbrev pub ttl_at : Time → Option Time → Option Value → Reply
ttl_at now deadline none = negative 2
ttl_at now none (some v) = negative 1
ttl_at now (some d) (some v) = int ((d - now + 500_000_000) / second)

-- What the documentation says that a command does at a time.
unfoldable pub eval : Time → Cmd → Keyspace → Reply × Keyspace
unfolding format_int parse_int
eval now (hset key f v) ks = hset_at key f v (deadline_of now (ks key)) (present now (ks key)) ks
eval now (hget key f) ks = (hget_at f (present now (ks key)), ks)
eval now (hdel key f) ks = hdel_at key f (deadline_of now (ks key)) (present now (ks key)) ks
eval now (hlen key) ks = (hlen_at (present now (ks key)), ks)
eval now (del key) ks = (count_at (present now (ks key)), write key none ks)
eval now (get key) ks = (get_at (present now (ks key)), ks)
eval now (exists key) ks = (count_at (present now (ks key)), ks)
eval now (getdel key) ks = (get_at (present now (ks key)), write key none ks)
eval now (expire key d) ks = expire_at key (now + whole second d) (present now (ks key)) ks
eval now (incr key) ks = incr_at key (deadline_of now (ks key)) (present now (ks key)) ks
eval now (ttl key) ks = (ttl_at now (deadline_of now (ks key)) (present now (ks key)), ks)
eval now (expire_nx key d) ks =
    expire_nx_at key (now + whole second d) (deadline_of now (ks key)) (present now (ks key)) ks
eval now (set key v d) ks = (okay, write key (entry (str v) (some (now + whole milli d))) ks)

unfoldable pub eval_all : Time → List Cmd → Keyspace → List Reply × Keyspace
unfolding eval
eval_all now [] ks = ([], ks)
eval_all now (c ∷ cs) ks =
    let (r, ks') = eval now c ks in let (rs, ks'') = eval_all now cs ks' in (r ∷ rs, ks'')

-- A client, with the state of the server behind it.
pub record Redis (S : Type 0) : Type 0 where
  pub run : Time → List Cmd → Exec GoError S (List Reply)
  pub keys : S → Keyspace
  -- a round trip that succeeds has the documented replies and effects
  pub replies_of_run :
      (now : Time) (cs : List Cmd) (s : S) {rs : List Reply}
      → (run now cs s).0 ≡ ok rs
      → rs ≡ (eval_all now cs (keys s)).0
  pub keys_of_run :
      (now : Time) (cs : List Cmd) (s : S) {rs : List Reply}
      → (run now cs s).0 ≡ ok rs
      → keys (run now cs s).1 ≡ (eval_all now cs (keys s)).1
