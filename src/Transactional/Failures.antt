-- ===== src/Transactional/Failures.antt =====
-- packages/operations/src/transactional.ts (the dispatch and its errors) and
-- packages/operations/src/transactional-idempotency.ts (which errors prove that nothing was sent).
use Prim.Native.String
use text.Mathlib.Text.{find?}
use listmonk_ops.Prelude.{
  ℕ, String, Option, none, some, Bool, true, false, Result, ok, err, if◌then◌else◌, List, [], ◌∷◌,
  leb, ltb, ◌&&◌, ◌||◌, any, not, same, ◌++◌,
}

-- An `Error` as far as the classification looks: its message, its HTTP status if it has one, and
-- the codes of itself, its cause and the cause of that.
pub record Failure : Type 0 where
  pub is_error : Bool
  pub message : String
  pub http_status : Option ℕ
  pub code : Option String
  pub cause : Option (Option String × Option (Option String))

-- The error part of a response: the text that `toErrorMessage` finds, and the error object if it is
-- an `Error`.
pub record ResponseError : Type 0 where
  pub text : String
  pub object : Option (Option String × Option (Option String))

pub data ResponseData : Type 0 where
  boolean : Bool → ResponseData
  other : String → ResponseData

pub record Response : Type 0 where
  pub error : Option ResponseError
  pub status : Option ℕ
  pub body : Option ResponseData

-- The client's `send` throws or returns.
pub data ClientResult : Type 0 where
  throws : Failure → ClientResult
  returns : Response → ClientResult

-- `new TransactionalDispatchError(message, status, cause)`.
unfoldable pub dispatch_error :
    String → Option ℕ → Option (Option String × Option (Option String)) → Failure
dispatch_error message status cause = record {
  is_error = true;
  message = message;
  http_status = status;
  code = none;
  cause = cause;
}

abbrev context_text : String
context_text = "Failed to send transactional message"

unfoldable pub unwrap_data : Option ResponseError → Response → Result Failure ResponseData
unfolding dispatch_error
unwrap_data (some e) response =
    err
      (dispatch_error (String.◌++◌ context_text (String.◌++◌ ": " e.text)) response.status e.object)
unwrap_data none response = elim response.body [
  | none ↦ err (dispatch_error (String.◌++◌ context_text ": received empty data") none none)
  | some d ↦ ok d
]

unfoldable pub acknowledgement : Option ℕ → ResponseData → Result Failure Bool
unfolding dispatch_error
acknowledgement status (boolean b) = ok b
acknowledgement status (other text) = err (
    dispatch_error
      (String.◌++◌ context_text
        (String.◌++◌ ": Listmonk returned a non-boolean acknowledgement (" (String.◌++◌ text ")")))
      status none)

unfoldable pub dispatch_to_listmonk : ClientResult → Result Failure Bool
unfolding unwrap_data acknowledgement
dispatch_to_listmonk (throws f) = err f
dispatch_to_listmonk (returns response) = elim (unwrap_data response.error response) [
  | err f ↦ err f
  | ok d ↦ acknowledgement response.status d
]

abbrev is_some {ℓ} : {A : Type ℓ} → Option A → Bool
is_some none = false
is_some (some a) = true

abbrev includes : String → String → Bool
includes text signal = is_some (find? text signal)

-- `pushCode`: non-empty texts only.
unfoldable pub push_code : Option String → List String
push_code none = []
push_code (some c) = if same c "" then [] else c ∷ []

unfoldable pub collect_error_codes :
    Option String → Option (Option String × Option (Option String)) → List String
unfolding push_code
collect_error_codes code none = push_code code
collect_error_codes code (some (c, none)) = push_code code ++ push_code c
collect_error_codes code (some (c, some n)) = push_code code ++ (push_code c ++ push_code n)

abbrev pub is_code_signal : String → Bool
is_code_signal c =
    same c "ECONNREFUSED"
    || same c "ENOTFOUND"
    || same c "ConnectionRefused"
    || same c "GetAddrInfoFailed"
    || same c "HostNotFoundError"

-- `to_lower_case` is the runtime's `String.prototype.toLowerCase`.
unfoldable pub is_definitive_pre_dispatch_error : (String → String) → Failure → Bool
unfolding collect_error_codes
is_definitive_pre_dispatch_error to_lower_case f =
    if not f.is_error then false else elim f.http_status [
      | some n ↦ leb 400 n && ltb n 500
      | none ↦
          if includes (to_lower_case f.message) "econnrefused"
            || includes (to_lower_case f.message) "enotfound"
          then true
          else any is_code_signal (collect_error_codes f.code f.cause)
    ]
