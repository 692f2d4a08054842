-- ===== src/Auth/Idaas.antt =====
-- src/auth/idaas.ts: the tokens of `IdaasClient`, over the answers of the identity service.
use livis_chatgpt_bridge.Protocol.Json.{Json, Fields, object, number, get_field}
use livis_chatgpt_bridge.Protocol.Livis.{string_of}
use livis_chatgpt_bridge.Prelude.{
  ◌||◌, ℕ, zero, suc, ◌+◌, ◌-◌, ◌*◌, max, Bool, false, not, ◌&&◌, Option, none, some, String,
  str_eq, if◌then◌else◌, ltb, ◌==◌,
}

-- `OAuthTokenSet` of src/types.ts: what the client keeps of it.
pub record OAuthTokenSet : Type 0 where
  pub access_token : String
  pub refresh_token : Option String
  pub expires_in : ℕ

-- `DeviceCodeResponse` of src/types.ts: the times in seconds.
pub record DeviceCodeResponse : Type 0 where
  pub expires_in : ℕ
  pub interval : ℕ

-- `IdaasClient`, with the refresh token of its `SecretStore`.
pub record IdaasClient : Type 0 where
  pub access_token : Option String
  pub access_token_expires_at : ℕ
  pub refresh_token : Option String

-- What a request to /token brings: `response.ok`, the status and the fields of the JSON object; or an
-- error of the request or of its JSON.
pub data Reply : Type 0 where
  response : Bool → ℕ → Fields → Reply
  no_response : Reply

-- What is read of it: tokens, the status with the `error` of the answer, if it has one, or an error.
pub data Reading : Type 0 where
  granted : OAuthTokenSet → Reading
  denied : Option String → Reading
  broken : Reading

-- All but the last are a `TerminalAuthError`.
pub data AuthError : Type 0 where
  no_refresh_token refresh_invalid code_expired access_denied timed_out : AuthError
  other : AuthError

pub data Answer : Type 0 where
  tokens : OAuthTokenSet → Answer
  token : String → Answer
  fails : AuthError → Answer
  done : Answer

-- The fields of an object.
unfoldable pub nested : Option Json → Fields → Fields
nested (some (object inner)) fields = inner
nested _ fields = fields

unfoldable pub number_else : Option Json → ℕ → ℕ
number_else (some (number n)) default = n
number_else _ default = default

unfoldable pub token_set_with : Option String → Fields → Fields → Reading
unfolding string_of number_else get_field
token_set_with none inner fields = broken
token_set_with (some s) inner fields =
    if str_eq s ""
    then broken
    else granted (record {
      access_token = s;
      refresh_token = string_of (get_field "refresh_token" inner);
      expires_in =
          number_else (get_field "expires_in" inner)
            (number_else (get_field "expires_in" fields) 3600);
    })

unfoldable pub token_set_from_response : Fields → String → Reading
unfolding nested token_set_with string_of get_field
token_set_from_response fields audience =
    let inner = nested (get_field audience fields) fields in
    token_set_with (string_of (get_field "access_token" inner)) inner fields

unfoldable pub read_reply : String → Reply → Reading
unfolding token_set_from_response string_of get_field
read_reply audience no_response = broken
read_reply audience (response ok status fields) =
    if ok
    then token_set_from_response fields audience
    else denied (string_of (get_field "error" fields))

-- A string that JavaScript takes for true.
unfoldable pub given : Option String → Option String
given none = none
given (some s) = if str_eq s "" then none else some s

unfoldable pub or_fallback : Option String → Option String → Option String
or_fallback none fallback = fallback
or_fallback (some s) fallback = some s

-- `setRefreshToken` of the token, if there is one.
unfoldable pub set_refresh_token : Option String → IdaasClient → IdaasClient
set_refresh_token none c = c
set_refresh_token (some s) c = record c { refresh_token = some s }

unfoldable pub accept_token_set : ℕ → OAuthTokenSet → Option String → IdaasClient → IdaasClient
unfolding given or_fallback set_refresh_token
accept_token_set now t fallback c =
    record (set_refresh_token (given (or_fallback t.refresh_token fallback)) c) {
      access_token = some t.access_token;
      access_token_expires_at = now + max 30 (t.expires_in - 60) * 1000;
    }

unfoldable pub holds_error : Option String → String → Bool
holds_error none e = false
holds_error (some s) e = str_eq s e

-- What `getAccessToken` makes of the answer to its request, at the time of the answer.
unfoldable pub refreshed : ℕ → Option String → Reading → IdaasClient → Answer × IdaasClient
unfolding accept_token_set
refreshed now old (granted t) c = (token t.access_token, accept_token_set now t old c)
refreshed now old (denied error) c = (fails other, c)
refreshed now old broken c = (fails other, c)

unfoldable pub is_invalid : Reply → Bool
unfolding holds_error string_of get_field
is_invalid no_response = false
is_invalid (response ok status fields) =
    status == 401 || holds_error (string_of (get_field "error" fields)) "invalid_grant"

unfoldable pub cached : Bool → ℕ → Option String → IdaasClient → Option String
cached force now none c = none
cached force now (some s) c =
    if not force && ltb now c.access_token_expires_at then some s else none

module _ (audience : String) where
  unfoldable pub request_token : ℕ → Option String → Reply → IdaasClient → Answer × IdaasClient
  unfolding refreshed is_invalid read_reply
  request_token now none reply c = (fails no_refresh_token, c)
  request_token now (some s) reply c =
      if is_invalid reply
      then (fails refresh_invalid, record c { refresh_token = none; access_token = none })
      else refreshed now (some s) (read_reply audience reply) c

  unfoldable pub or_request : Option String → ℕ → Reply → IdaasClient → Answer × IdaasClient
  unfolding request_token given
  or_request (some s) later reply c = (token s, c)
  or_request none later reply c = request_token later (given c.refresh_token) reply c

  unfoldable pub get_access_token : Bool → ℕ → ℕ → Reply → IdaasClient → Answer × IdaasClient
  unfolding cached or_request given
  get_access_token force now later reply c =
      or_request (cached force now (given c.access_token) c) later reply c

-- A round of the polling: how much longer than asked for it took, with its request, and its answer.
pub record Round : Type 0 where
  pub overrun : ℕ
  pub reply : Reply

unfoldable pub fails_with : String → AuthError
fails_with e =
    if str_eq e "expired_token"
    then code_expired
    else (if str_eq e "access_denied" then access_denied else other)

-- The error of an answer: pending and slow_down go on with an interval, others end the polling.
unfoldable pub on_error :
    String → ℕ → (ℕ → Option (Answer × IdaasClient)) → IdaasClient → Option (Answer × IdaasClient)
unfolding fails_with
on_error e interval_ms continue c =
    if str_eq e "authorization_pending"
    then continue interval_ms
    else (if str_eq e "slow_down"
        then continue (interval_ms + 5000)
        else some (fails (fails_with e), c))

unfoldable pub on_reply :
    Reading
    → ℕ
    → ℕ
    → (ℕ → Option (Answer × IdaasClient))
    → IdaasClient
    → Option (Answer × IdaasClient)
unfolding accept_token_set on_error
on_reply (granted t) now interval_ms continue c = some (tokens t, accept_token_set now t none c)
on_reply (denied none) now interval_ms continue c = some (fails other, c)
on_reply (denied (some e)) now interval_ms continue c = on_error e interval_ms continue c
on_reply broken now interval_ms continue c = some (fails other, c)

module _ (audience : String) where
  -- The loop of `pollForToken`, with fuel for its rounds; `none` is that the fuel has run out.
  unfoldable pub poll : ℕ → (ℕ → Round) → ℕ → ℕ → ℕ → IdaasClient → Option (Answer × IdaasClient)
  unfolding on_reply read_reply
  poll zero rounds expires_at interval_ms now c = none
  poll (suc fuel) rounds expires_at interval_ms now c =
      let later = now + interval_ms + (rounds 0).overrun in
      if ltb now expires_at
      then on_reply (read_reply audience (rounds 0).reply) later interval_ms
          (λ next_ms. poll fuel (λ n. rounds (suc n)) expires_at next_ms later c) c
      else some (fails timed_out, c)

  unfoldable pub poll_for_token :
      ℕ → DeviceCodeResponse → (ℕ → Round) → ℕ → IdaasClient → Option (Answer × IdaasClient)
  unfolding poll
  poll_for_token fuel code rounds now c =
      poll fuel rounds (now + code.expires_in * 1000) (max 1000 (code.interval * 1000)) now c

unfoldable pub forget : IdaasClient → IdaasClient
forget c = record c { refresh_token = none; access_token = none; access_token_expires_at = 0 }

-- `revoke`, where `succeeds` is whether the request to /revoke was answered with success.
unfoldable pub revoke_with : Option String → Bool → IdaasClient → Answer × IdaasClient
unfolding forget
revoke_with none succeeds c = (done, forget c)
revoke_with (some s) succeeds c = if succeeds then (done, forget c) else (fails other, c)

unfoldable pub revoke : Bool → IdaasClient → Answer × IdaasClient
unfolding revoke_with given
revoke succeeds c = revoke_with (given c.refresh_token) succeeds c
