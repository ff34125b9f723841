-- ===== src/Rest/Answers.antt =====
-- What holds of every answer of the handlers of rest/, and the steps that keep it.
use omnistash.Base.{
  ℕ, ◌≤◌, ◌<◌, ◌⊎◌, ◌≡◌, refl, String, Bool, true, false, Bool-cases, inl, inr, leb, if◌then◌else◌,
  arith,
}
use omnistash.Errors.{Error, Result, ok, err}
use omnistash.World.{World, Proc, pure, attempt, trip, quietly, ◌>>=◌, ◌>>◌}
use omnistash.Rest.Status.{err_to_status_code, err_to_status_code_status}
use omnistash.Rest.Http.{
  Response, Payload, Message, bare, write_oci_error, client_message, if_marshalled,
  registry_err_to_http, registry_err_to_http_no_body, answer_with, or_http, or_no_body,
}

-- The body says nothing of an error but that there was one.
abbrev pub Discreet : Payload → Type 0
Discreet Payload.no_body = Unit
Discreet (Payload.error_json code (Message.fixed text)) = text ≡ "internal server error"
Discreet (Payload.error_json code (Message.of_error e)) = ⊥
Discreet Payload.empty_json = ⊥
Discreet (Payload.plain text) = ⊥
Discreet (Payload.stream bytes) = ⊥
Discreet (Payload.namespace_json row) = ⊥
Discreet (Payload.index_json ds) = ⊥
Discreet (Payload.health_json h) = ⊥

pub record IsProper (r : Response) : Type 0 where
  pub least : 200 ≤ r.status
  pub most : r.status ≤ 500
  pub discreet : (r.status < 500) ⊎ Discreet r.payload

abbrev pub IsAnswer : Result Response → Type 0
IsAnswer (ok r) = IsProper r
IsAnswer (err e) = ⊥

-- In every world the step gives a response, and a proper one.
pub record Answers (m : Proc Response) : Type 0 where
  pub answer : (w : World) → IsAnswer (m w).0

pub Answers-pure : (r : Response) → IsProper r → Answers (pure r)
unfolding pure
Answers-pure r h = record { answer = λ w. h }

pub Answers-attempt :
    {A : Type 0} (m : Proc A) (f : Result A → Proc Response)
    → ((r : Result A) → Answers (f r))
    → Answers (attempt m >>= f)
unfolding ◌>>=◌
Answers-attempt m f h = record { answer = λ w. (h (m w).0).answer (m w).1 }

pub Answers-quietly :
    (m : Proc (Unit {0})) (n : Proc Response) → Answers n → Answers (quietly m >> n)
unfolding ◌>>=◌
Answers-quietly m n h = record { answer = λ w. h.answer (m w).1 }

-- A status below 500 is proper whatever is written.
pub plain : (r : Response) → 200 ≤ r.status → r.status ≤ 499 → IsProper r
plain r h k = record { least = h; most = omega (arith, h, k); discreet = inl (omega (arith, k)) }

pub bare_error : IsProper (bare 500)
bare_error = record { least = omega arith; most = omega arith; discreet = inr tt }

pub Answers-if_marshalled :
    (m : Result (Unit {0})) (n f : Proc Response)
    → Answers n
    → Answers f
    → Answers (if_marshalled m n f)
Answers-if_marshalled (ok done) n f h k = h
Answers-if_marshalled (err e) n f h k = k

pub Answers-write_oci_error :
    (status : ℕ) (code : String) (message : Message)
    → 200 ≤ status
    → status ≤ 500
    → (status < 500) ⊎ Discreet (Payload.error_json code message)
    → Answers (write_oci_error status code message)
unfolding write_oci_error
Answers-write_oci_error status code message least most discreet = Answers-attempt trip _ λ m.
    Answers-if_marshalled m _ _
      (Answers-pure _ record { least = least; most = most; discreet = discreet })
      (Answers-pure _ bare_error)

client-Discreet :
    (status : ℕ) (code : String) (e : Error)
    → (status < 500) ⊎ Discreet (Payload.error_json code (client_message status e))
client-Discreet status code e = elim (Bool-cases (leb 500 status)) [
  | inl b ↦ rw b (inr refl)
  | inr b ↦ inl (ground (arith, b))
]

pub Answers-registry_err_to_http : (e : Error) → Answers (registry_err_to_http e)
unfolding registry_err_to_http
Answers-registry_err_to_http e =
    let status = err_to_status_code_status e in
    Answers-write_oci_error _ _ _ (omega (arith, status.0)) status.1
      (client-Discreet _ (err_to_status_code e).1 e)

pub Answers-registry_err_to_http_no_body : (e : Error) → Answers (registry_err_to_http_no_body e)
unfolding registry_err_to_http_no_body
Answers-registry_err_to_http_no_body e =
    let status = err_to_status_code_status e in
    Answers-pure _ record { least = omega (arith, status.0); most = status.1; discreet = inr tt }

module _ {A : Type 0} where
  pub Answers-answer_with :
      (r : Result A) (failed : Error → Proc Response) (next : A → Proc Response)
      → ((e : Error) → Answers (failed e))
      → ((a : A) → Answers (next a))
      → Answers (answer_with r failed next)
  Answers-answer_with (ok a) failed next h k = k a
  Answers-answer_with (err e) failed next h k = h e

  pub Answers-or_http :
      (m : Proc A) (next : A → Proc Response)
      → ((a : A) → Answers (next a))
      → Answers (or_http m next)
  Answers-or_http m next h =
      Answers-attempt m _ λ r. Answers-answer_with r _ next Answers-registry_err_to_http h

  pub Answers-or_no_body :
      (m : Proc A) (next : A → Proc Response)
      → ((a : A) → Answers (next a))
      → Answers (or_no_body m next)
  Answers-or_no_body m next h =
      Answers-attempt m _ λ r. Answers-answer_with r _ next Answers-registry_err_to_http_no_body h

-- A fixed message with a status below 500.
pub Answers-refused :
    (status : ℕ) (code text : String)
    → 200 ≤ status
    → status ≤ 499
    → Answers (write_oci_error status code (Message.fixed text))
Answers-refused status code text h k =
    Answers-write_oci_error status code _ h (omega (arith, k)) (inl (omega (arith, k)))

pub Answers-if :
    (b : Bool) (m n : Proc Response) → Answers m → Answers n → Answers (if b then m else n)
Answers-if true m n h k = h
Answers-if false m n h k = k

-- A response that is written as it is, with a status below 500.
pub Answers-written : (r : Response) → 200 ≤ r.status → r.status ≤ 499 → Answers (pure r)
Answers-written r h k = Answers-pure r (plain r h k)
