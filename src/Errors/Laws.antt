-- ===== src/Errors/Laws.antt =====
-- What an error becomes at the HTTP boundary, and how the chains are read.
use wordotron_api.Prelude.{
  ℕ, String, ◌≡◌, ◌⊎◌, inl, inr, refl, ◌∙◌, Option, none, some, Option-cases, Bool, true, false,
  Bool-cases, [], arith, if◌then◌else◌, ◌==◌, ◌||◌, sym,
}
use wordotron_api.Errors.{
  GoError, no_error, app, sentinel, pg, pg_other, fiber, plain, wrap, AppError, as_app, as_fiber,
  new_error, payload_too_large_error, bad_request_error, wrap_cause, translate, translate_fiber,
  translate_context, is, Sentinel, context_canceled, context_deadline_exceeded, internal,
  bad_request, unavailable,
}

-- What the client gets of an error: all of an `*Error` but its cause.
abbrev pub visible : GoError → Option AppError
visible (app a cause) = some a
visible _ = none

-- The error without the texts of plain errors and of wraps, and without the SQLSTATE.
abbrev pub scrub : GoError → GoError
scrub no_error = no_error
scrub (app a cause) = app a (scrub cause)
scrub (sentinel s) = sentinel s
scrub (pg c) = pg pg_other
scrub (fiber status message) = fiber status message
scrub (plain m) = plain ""
scrub (wrap m e) = wrap "" (scrub e)

-- The answers to failures that the program did not raise itself.
abbrev pub unexpected : AppError
unexpected = record {
  code = internal;
  status = 500;
  message = "An unexpected error occurred";
  fields = [];
}

abbrev pub closed_request : AppError
closed_request = record {
  code = bad_request;
  status = 499;
  message = "Client closed the request";
  fields = [];
}

abbrev pub timed_out : AppError
timed_out = record {
  code = unavailable;
  status = 504;
  message = "The request timed out";
  fields = [];
}

abbrev app_of : Option (AppError × GoError) → Option AppError
app_of none = none
app_of (some (a, cause)) = some a

app_of-scrub : (e : GoError) → app_of (as_app (scrub e)) ≡ app_of (as_app e)
unfolding as_app
app_of-scrub no_error = refl
app_of-scrub (app a cause) = refl
app_of-scrub (sentinel s) = refl
app_of-scrub (pg c) = refl
app_of-scrub (fiber status message) = refl
app_of-scrub (plain m) = refl
app_of-scrub (wrap m e) = app_of-scrub e

as_fiber-scrub : (e : GoError) → as_fiber (scrub e) ≡ as_fiber e
unfolding as_fiber
as_fiber-scrub no_error = refl
as_fiber-scrub (app a cause) = as_fiber-scrub cause
as_fiber-scrub (sentinel s) = refl
as_fiber-scrub (pg c) = refl
as_fiber-scrub (fiber status message) = refl
as_fiber-scrub (plain m) = refl
as_fiber-scrub (wrap m e) = as_fiber-scrub e

is-scrub : (s : Sentinel) (e : GoError) → is s (scrub e) ≡ is s e
unfolding is
is-scrub s no_error = refl
is-scrub s (app a cause) = is-scrub s cause
is-scrub s (sentinel t) = refl
is-scrub s (pg c) = refl
is-scrub s (fiber status message) = refl
is-scrub s (plain m) = refl
is-scrub s (wrap m e) = is-scrub s e

-- What the client gets, from what is read off the chain.
abbrev answer : Option AppError → Option (ℕ × String) → Bool → Bool → Option AppError
answer (some a) f closed late = some a
answer none (some (status, message)) closed late = visible (translate_fiber status message no_error)
answer none none closed late =
    some (if closed then closed_request else if late then timed_out else unexpected)

visible-translate_fiber :
    (status : ℕ) (message : String) (e : GoError)
    → visible (translate_fiber status message e) ≡ visible (translate_fiber status message no_error)
unfolding translate_fiber
visible-translate_fiber status message e = ground arith

visible-translate_context :
    (e : GoError)
    → visible (translate_context e)
      ≡ answer none none (is context_canceled e) (is context_deadline_exceeded e)
unfolding translate_context
visible-translate_context e = elim (Bool-cases (is context_canceled e)) [
  | inl p ↦ rw p refl
  | inr p ↦ elim (Bool-cases (is context_deadline_exceeded e)) [
    | inl q ↦ rw (p, q) refl
    | inr q ↦ rw (p, q) refl
  ]
]

visible-translate :
    (e : GoError)
    → visible (translate e)
      ≡ answer
          (app_of (as_app e))
          (as_fiber e)
          (is context_canceled e)
          (is context_deadline_exceeded e)
unfolding translate
visible-translate e = elim (Option-cases (as_app e)) [
  | inr ((a, cause), p) ↦ rw (p, translate) refl
  | inl p ↦ elim (Option-cases (as_fiber e)) [
    | inr ((status, message), q) ↦ rw (p, translate, q) (visible-translate_fiber status message e)
    | inl q ↦ rw (p, translate, q) (visible-translate_context e)
  ]
]

-- A fiber error keeps its status, except that 422 becomes 400, and lists no fields.
fiber_answer :
    (status : ℕ) (message : String)
    → (a : AppError) × (visible (translate_fiber status message no_error) ≡ some a)
      × (a.status ≡ (if status == 422 then 400 else status))
      × (a.fields ≡ [])
unfolding translate_fiber new_error payload_too_large_error bad_request_error wrap_cause
fiber_answer status message = elim (Bool-cases (status == 404)) [
  | inl p ↦ rw p (_, refl, ground arith, refl)
  | inr p ↦ elim (Bool-cases (status == 405)) [
    | inl q ↦ rw (p, q) (_, refl, ground arith, refl)
    | inr q ↦ elim (Bool-cases (status == 413)) [
      | inl r ↦ rw (p, q, r) (_, refl, ground arith, refl)
      | inr r ↦ elim (Bool-cases (status == 422 || status == 400)) [
        | inl o ↦ rw (p, q, r, o) (_, refl, ground arith, refl)
        | inr o ↦ rw (p, q, r, o) (_, refl, ground arith, refl)
      ]
    ]
  ]
]

-- The three ways in which an error is shown.
abbrev pub IsShownAs : GoError → Option AppError → Type 0
IsShownAs e shown =
    ((a : AppError) × (cause : GoError) × (as_app e ≡ some (a, cause)) × (shown ≡ some a))
    ⊎ (((status : ℕ) × (message : String) × (a : AppError) × (as_app e ≡ none)
          × (as_fiber e ≡ some (status, message))
          × (shown ≡ some a)
          × (a.status ≡ (if status == 422 then 400 else status))
          × (a.fields ≡ []))
        ⊎ ((as_app e ≡ none)
            × (as_fiber e ≡ none)
            × (((is context_canceled e ≡ true) × (shown ≡ some closed_request))
                ⊎ (((is context_canceled e ≡ false)
                      × (is context_deadline_exceeded e ≡ true)
                      × (shown ≡ some timed_out))
                    ⊎ ((is context_canceled e ≡ false)
                        × (is context_deadline_exceeded e ≡ false)
                        × (shown ≡ some unexpected))))))

shown_as : (e : GoError) → IsShownAs e (visible (translate e))
shown_as e = rw (visible-translate e) (elim (Option-cases (as_app e)) [
  | inr ((a, cause), p) ↦ inl (a, cause, p, rw p refl)
  | inl p ↦ elim (Option-cases (as_fiber e)) [
    | inr ((status, message), q) ↦
        let (a, shown, same, no_fields) = fiber_answer status message in
        inr (inl (status, message, a, p, q, rw (p, q) shown, same, no_fields))
    | inl q ↦ inr (
        inr (
          p,
          q,
          elim (Bool-cases (is context_canceled e)) [
            | inl c ↦ inl (c, rw (p, q, c) refl)
            | inr c ↦ elim (Bool-cases (is context_deadline_exceeded e)) [
              | inl d ↦ inr (inl (c, d, rw (p, q, c, d) refl))
              | inr d ↦ inr (inr (c, d, rw (p, q, c, d) refl))
            ]
          ],
        ))
  ]
])

-- What the client gets of an error does not depend on the texts of plain errors in its chain or of
-- those that wrap others, nor on the SQLSTATE of a database error. It is the first application error of
-- the chain; or else, for a fiber error, one with its status, 400 for 422, and no fields; or else one
-- of three complete fixed answers: 499 where the client went away, 504 where the time was up, and 500
-- for everything else.
pub translate-hides :
    (e : GoError)
    → (visible (translate e) ≡ visible (translate (scrub e))) × IsShownAs e (visible (translate e))
translate-hides e = (
  visible-translate e
      ∙ sym (
          visible-translate (scrub e)
          ∙ rw
              (
                app_of-scrub e,
                as_fiber-scrub e,
                is-scrub context_canceled e,
                is-scrub context_deadline_exceeded e,
              )
              refl),
  shown_as e,
)

-- Whatever the program's own `*Error` is wrapped in, it is what the client gets.
pub translate-wrap :
    (m : String) (a : AppError) (cause : GoError) → translate (wrap m (app a cause)) ≡ app a cause
unfolding translate as_app
translate-wrap m a cause = refl
