-- ===== src/Tests/Instances.antt =====
-- Concrete functions for the packages that the program calls: a Redis that never fails, identifiers
-- of one character, tokens and hashes in clear.
use wordotron_api.Prelude.{
  ℕ, suc, ◌-◌, ◌≡◌, refl, sym, ap, Bool, true, ◌&&◌, Option, none, some, List, [], ◌∷◌, ◌++◌,
  length, take, drop, if◌then◌else◌, arith, inl, inr, Bool-cases, ◌==◌,
}
use mathlib.Core.Path.{subst}
use wordotron_api.Prelude.Exec.{Result, ok, err, Exec}
use wordotron_api.Text.{GoString, eqs}
use wordotron_api.Text.Laws.{eqs_refl}
use wordotron_api.Errors.{GoError, plain, sentinel, bcrypt_mismatch}
use wordotron_api.Models.{Uuid, Time}
use wordotron_api.Redis.{Redis, Keyspace, Reply, Cmd, eval_all}
use wordotron_api.Auth.Session.{Uuids}
use wordotron_api.Auth.Password.{Bcrypt}
use wordotron_api.Auth.Token.{
  Claims, SigningMethod, hs256, hs384, hs512, other_method, ParserOptions, Jwt, is_listed,
  is_accepted,
}

abbrev run : Time → List Cmd → Exec GoError Keyspace (List Reply)
run now cs ks = (ok (eval_all now cs ks).0, (eval_all now cs ks).1)

pub replies :
    (now : Time) (cs : List Cmd) (ks : Keyspace) {rs : List Reply}
    → (run now cs ks).0 ≡ ok rs
    → rs ≡ (eval_all now cs ks).0
replies now cs ks h = cc

abbrev pub memory : Redis Keyspace
memory = record {
  run = run;
  keys = λ s. s;
  replies_of_run = λ now cs s h. replies now cs s h;
  keys_of_run = λ now cs s h. refl;
}

abbrev parse_uuid : GoString → Result GoError Uuid
parse_uuid (u ∷ []) = ok u
parse_uuid _ = err (plain "invalid UUID length")

abbrev pub uuids : Uuids
uuids = record { to_text = λ u. u ∷ []; parse = parse_uuid; parse-to_text = λ u. refl }

abbrev compare : GoString → GoString → Result GoError (Unit {0})
compare [] password = err (plain "hashedSecret too short")
compare (salt ∷ h) password = if eqs h password then ok tt else err (sentinel bcrypt_mismatch)

pub matches :
    (salt : ℕ) (password : GoString) {hash : GoString}
    → salt ∷ password ≡ hash
    → compare hash password ≡ ok tt
matches salt password h = rw (← h) (rw eqs_refl refl)

abbrev generate : ℕ → ℕ → GoString → Result GoError GoString
generate salt cost password = ok (salt ∷ password)

pub generated :
    (salt cost : ℕ) (password : GoString) {hash : GoString}
    → generate salt cost password ≡ ok hash
    → salt ∷ password ≡ hash
generated salt cost password h = cc

abbrev pub bcrypt : Bcrypt
bcrypt = record {
  generate = generate;
  compare = compare;
  compare-generate = λ salt cost password h. matches salt password (generated salt cost password h);
}

-- A string behind its length, and the way back.
abbrev pub put : GoString → GoString → GoString
put s rest = length s ∷ s ++ rest

abbrev pub first_of : GoString → GoString
first_of [] = []
first_of (n ∷ r) = take n r

abbrev pub rest_of : GoString → GoString
rest_of [] = []
rest_of (n ∷ r) = drop n r

pub first_of-put : (s r : GoString) → first_of (put s r) ≡ s
first_of-put [] r = refl
first_of-put (c ∷ s) r = ap (λ (t : GoString). c ∷ t) (first_of-put s r)

pub rest_of-put : (s r : GoString) → rest_of (put s r) ≡ r
rest_of-put [] r = refl
rest_of-put (c ∷ s) r = rest_of-put s r

abbrev of_method : SigningMethod → ℕ
of_method hs256 = 0
of_method hs384 = 1
of_method hs512 = 2
of_method other_method = 3

abbrev to_method : ℕ → SigningMethod
to_method n =
    if n == 0 then hs256 else if n == 1 then hs384 else if n == 2 then hs512 else other_method

to_method-of_method : (m : SigningMethod) → to_method (of_method m) ≡ m
to_method-of_method hs256 = refl
to_method-of_method hs384 = refl
to_method-of_method hs512 = refl
to_method-of_method other_method = refl

abbrev of_option : Option ℕ → ℕ
of_option none = 0
of_option (some n) = suc n

abbrev to_option : ℕ → Option ℕ
to_option n = if n == 0 then none else some (n - 1)

to_option-of_option : (o : Option ℕ) → to_option (of_option o) ≡ o
to_option-of_option none = refl
to_option-of_option (some n) = ground arith

abbrev nth : ℕ → GoString → ℕ
nth n s = elim (drop n s) [ [] ↦ 0 | c ∷ r ↦ c ]

abbrev encode : SigningMethod → GoString → Claims → GoString
encode m secret c = put secret (
    put c.id (
      put c.subject (
        put c.issuer (
          put c.role (
            put c.token_type (
              of_method m
              ∷ of_option c.issued_at
              ∷ of_option c.not_before
              ∷ of_option c.expires_at
              ∷ []))))))

abbrev tail_of : GoString → GoString
tail_of raw = rest_of (rest_of (rest_of (rest_of (rest_of (rest_of raw)))))

abbrev method_in : GoString → SigningMethod
method_in raw = to_method (nth 0 (tail_of raw))

abbrev claims_in : GoString → Claims
claims_in raw = record {
  id = first_of (rest_of raw);
  subject = first_of (rest_of (rest_of raw));
  issuer = first_of (rest_of (rest_of (rest_of raw)));
  issued_at = to_option (nth 1 (tail_of raw));
  not_before = to_option (nth 2 (tail_of raw));
  expires_at = to_option (nth 3 (tail_of raw));
  role = first_of (rest_of (rest_of (rest_of (rest_of raw))));
  token_type = first_of (rest_of (rest_of (rest_of (rest_of (rest_of raw)))));
}

claims_in-encode :
    (m : SigningMethod) (secret : GoString) (c : Claims) → claims_in (encode m secret c) ≡ c
claims_in-encode m secret c = simp (rest_of-put, first_of-put, to_option-of_option)

method_in-encode :
    (m : SigningMethod) (secret : GoString) (c : Claims) → method_in (encode m secret c) ≡ m
method_in-encode m secret c = simp (rest_of-put, to_method-of_method)

abbrev decode : GoString → Option (SigningMethod × Claims)
decode raw = some (method_in raw, claims_in raw)

abbrev verify : SigningMethod → GoString → GoString → Bool
verify m secret raw = eqs (encode m secret (claims_in raw)) raw

abbrev accept :
    ParserOptions
    → SigningMethod
    → Claims
    → GoString
    → Result GoError GoString
    → Result GoError Claims
accept o m c raw (err e) = err e
accept o m c raw (ok secret) =
    if verify m secret raw && (is_listed o m && is_accepted o c)
    then ok c
    else err (plain "token is invalid")

abbrev parse :
    GoString → (SigningMethod → Result GoError GoString) → ParserOptions → Result GoError Claims
parse raw key o = accept o (method_in raw) (claims_in raw) raw (key (method_in raw))

all_three : (a b c : Bool) → (a && (b && c)) ≡ true → (a ≡ true) × (b ≡ true) × (c ≡ true)
all_three a b c h = (ground arith, ground arith, ground arith)

accept-eq-ok :
    (o : ParserOptions) (m : SigningMethod) (c : Claims) (raw : GoString)
    (r : Result GoError GoString) {d : Claims}
    → accept o m c raw r ≡ ok d
    → (secret : GoString) × (c ≡ d)
      × (r ≡ ok secret)
      × (verify m secret raw ≡ true)
      × (is_listed o m ≡ true)
      × (is_accepted o c ≡ true)
accept-eq-ok o m c raw (err e) h = absurd (cc)
accept-eq-ok o m c raw (ok secret) h =
    elim (Bool-cases (verify m secret raw && (is_listed o m && is_accepted o c))) [
      | inr p ↦ absurd (cc (rw p at h))
      | inl p ↦
          let (verified, listed, accepted) =
            all_three (verify m secret raw) (is_listed o m) (is_accepted o c) p in
          (secret, cc (rw p at h), refl, verified, listed, accepted)
    ]

abbrev pub sign : SigningMethod → GoString → Claims → Result GoError GoString
sign m secret c = ok (encode m secret c)

pub decode-sign :
    (m : SigningMethod) (secret raw : GoString) (c : Claims)
    → sign m secret c ≡ ok raw
    → (decode raw ≡ some (m, c)) × (verify m secret raw ≡ true)
decode-sign m secret raw c signed =
    let e : encode m secret c ≡ raw = cc in
    subst (λ x. (decode x ≡ some (m, c)) × (verify m secret x ≡ true)) e
      (
        rw (method_in-encode m secret c, claims_in-encode m secret c) refl,
        subst (λ (x : Claims). eqs (encode m secret x) (encode m secret c) ≡ true)
            (sym (claims_in-encode m secret c)) (eqs_refl (encode m secret c)),
      )

pub parse-decode :
    (raw secret : GoString) (m : SigningMethod) (c : Claims)
    (key : SigningMethod → Result GoError GoString) (o : ParserOptions)
    → decode raw ≡ some (m, c)
    → key m ≡ ok secret
    → verify m secret raw ≡ true
    → is_listed o m ≡ true
    → is_accepted o c ≡ true
    → parse raw key o ≡ ok c
parse-decode raw secret m c key o decoded keyed verified listed accepted =
    let same_method : method_in raw ≡ m = cc in
    let same_claims : claims_in raw ≡ c = cc in
    rw (same_method, keyed) (accepts (claims_in raw) same_claims)
  where
    accepts : (d : Claims) → d ≡ c → accept o m d raw (ok secret) ≡ ok c
    accepts d e = rw (e, verified, listed, accepted) refl

pub parse-eq-ok :
    (raw : GoString) (key : SigningMethod → Result GoError GoString) (o : ParserOptions)
    {c : Claims}
    → parse raw key o ≡ ok c
    → (m : SigningMethod) × (secret : GoString) × (decode raw ≡ some (m, c))
      × (key m ≡ ok secret)
      × (verify m secret raw ≡ true)
      × (is_listed o m ≡ true)
      × (is_accepted o c ≡ true)
parse-eq-ok raw key o {c = c} h =
    let (secret, same, keyed, verified, listed, accepted) =
      accept-eq-ok o (method_in raw) (claims_in raw) raw (key (method_in raw)) h in
    (
      method_in raw,
      secret,
      ap (λ (x : Claims). some (method_in raw, x)) same,
      keyed,
      verified,
      listed,
      subst (λ (x : Claims). is_accepted o x ≡ true) same accepted,
    )

abbrev pub jwt : Jwt
jwt = record {
  sign = sign;
  parse = parse;
  decode = decode;
  verify = verify;
  decode-sign = λ m secret raw c h w. decode-sign m secret raw c h;
  parse-decode = λ raw secret m c key o. parse-decode raw secret m c key o;
  parse-eq-ok = λ raw key o h. parse-eq-ok raw key o h;
}
