-- ===== src/Common/Errors.antt =====
-- The exceptions of src/common/exceptions/domain.exception.ts, and the other errors that the
-- program throws. A message is a template: its literal pieces and the values put in.
use gameclub_backend.Prelude.{
  ◌≡◌, refl, ◌⊎◌, inl, inr, ℕ, String, Option, none, some, List, [], ◌∷◌, Uuid,
}
use gameclub_backend.Prelude.Int.{ℤ}

pub data Part : Type 0 where
  lit : String → Part
  uuid : Uuid → Part
  num : ℤ → Part

abbrev pub Details : Type 0
Details = List (String × Part)

pub record DomainException : Type 0 where
  pub code : String
  pub message : List Part
  pub http_status : ℕ
  pub details : Option Details

-- The message of a Nest response object: an array of texts, a text, or neither.
pub data ResponseMessage : Type 0 where
  messages : List String → ResponseMessage
  text : String → ResponseMessage
  absent : ResponseMessage

pub record HttpException : Type 0 where
  pub status : ℕ
  pub message : String
  pub response : ResponseMessage

-- What may be thrown: an exception of the domain, one of Nest, a failed query with the code of the
-- driver, or any other `Error`.
pub data Exception : Type 0 where
  domain : DomainException → Exception
  http : HttpException → Exception
  query_failed : Option String → Exception
  error : List Part → Exception

-- The enum `HttpStatus` of Nest, as far as the program names it.
abbrev pub bad_request : ℕ
bad_request = 400

abbrev pub unauthorized : ℕ
unauthorized = 401

abbrev pub forbidden : ℕ
forbidden = 403

abbrev pub not_found : ℕ
not_found = 404

abbrev pub conflict : ℕ
conflict = 409

abbrev pub unprocessable_entity : ℕ
unprocessable_entity = 422

abbrev pub too_many_requests : ℕ
too_many_requests = 429

abbrev pub internal_server_error : ℕ
internal_server_error = 500

-- `new ResourceNotFoundException(resource, id)`.
abbrev pub resource_not_found : String → Option Uuid → Exception
resource_not_found resource id = domain (record {
  code = "NOT_FOUND";
  message = elim id [
    | some k ↦ lit resource ∷ lit " " ∷ uuid k ∷ lit " was not found" ∷ []
    | none ↦ lit resource ∷ lit " was not found" ∷ []
  ];
  http_status = not_found;
  details = none;
})

-- `new BusinessRuleException(code, message, details)`.
abbrev pub business_rule : String → List Part → Option Details → Exception
business_rule code message details = domain (record {
  code = code;
  message = message;
  http_status = unprocessable_entity;
  details = details;
})

-- `new ConflictException(code, message, details)`.
abbrev pub conflict_exception : String → List Part → Option Details → Exception
conflict_exception code message details =
    domain (record { code = code; message = message; http_status = conflict; details = details })

-- `new UnauthorizedException(message)` and `new ForbiddenException(message)` of Nest.
abbrev pub unauthorized_exception : String → Exception
unauthorized_exception m = http (record { status = unauthorized; message = m; response = text m })

abbrev pub forbidden_exception : String → Exception
forbidden_exception m = http (record { status = forbidden; message = m; response = text m })

-- A computation that may throw.
pub data Result {ℓ} (A : Type ℓ) : Type ℓ where
  ok : A → Result A
  throw : Exception → Result A

infixl 5 ◌>>=◌ ◌>>◌
abbrev pub ◌>>=◌ {ℓ κ} : {A : Type ℓ} {B : Type κ} → Result A → (A → Result B) → Result B
ok a >>= f = f a
throw e >>= f = throw e

abbrev pub ◌>>◌ {ℓ} : {B : Type ℓ} → Result (Unit {0}) → Result B → Result B
m >> k = m >>= λ _. k

-- To split on a computed result and keep the equation.
pub Result-cases {ℓ} :
    {A : Type ℓ} (r : Result A) → ((a : A) × (r ≡ ok a)) ⊎ ((e : Exception) × (r ≡ throw e))
Result-cases (ok a) = inl (a, refl)
Result-cases (throw e) = inr (e, refl)
