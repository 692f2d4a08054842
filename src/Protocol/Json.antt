-- ===== src/Protocol/Json.antt =====
-- The values that JSON.parse gives, and checks that end in a value or an error. A number is a
-- natural number, as the times and sizes on the wire are.
use livis_chatgpt_bridge.Prelude.{ℕ, Bool, Option, none, some, String, str_eq, if◌then◌else◌}

mutual
  pub data Json : Type 0 where
    null : Json
    bool : Bool → Json
    number : ℕ → Json
    text : String → Json
    array : Items → Json
    object : Fields → Json

  pub data Items : Type 0 where
    no_item : Items
    item : Json → Items → Items

  pub data Fields : Type 0 where
    no_field : Fields
    field : String → Json → Fields → Fields

-- `fields.key`, where a missing field is undefined.
unfoldable pub get_field : String → Fields → Option Json
get_field key no_field = none
get_field key (field name value fields) =
    if str_eq name key then some value else get_field key fields

-- `fields?.key`.
unfoldable pub get_field? : String → Option Fields → Option Json
unfolding get_field
get_field? key none = none
get_field? key (some fields) = get_field key fields

-- The errors that src/protocol/livis.ts, `parseJsonObject` of src/util.ts and the message parser of
-- src/connector/server.ts throw.
pub data WireError : Type 0 where
  not_json not_object missing too_long : String → WireError
  bad_metadata bad_payload bad_data not_send_message unsupported_type : WireError
  empty_content input_too_long : WireError
  bad_hello bad_capability missing_lease bad_text bad_error bad_disposition : WireError

pub data Checked {ℓ} (A : Type ℓ) : Type ℓ where
  valid : A → Checked A
  refused : WireError → Checked A

infixl 5 ◌>>=◌ ◌>>◌
unfoldable pub ◌>>=◌ {ℓ κ} : {A : Type ℓ} {B : Type κ} → Checked A → (A → Checked B) → Checked B
valid a >>= f = f a
refused e >>= f = refused e

unfoldable pub ◌>>◌ {ℓ κ} : {A : Type ℓ} {B : Type κ} → Checked A → Checked B → Checked B
valid a >> k = k
refused e >> k = refused e

-- Code outside the repository: JSON.parse (none where it throws), JSON.stringify of an object, the
-- UTF-8 length of `Buffer.byteLength`, the UTF-16 length of a string, and `s.trim() === ""`.
pub record Text : Type 0 where
  pub parse_json : String → Option Json
  pub stringify : Fields → String
  pub byte_length : String → ℕ
  pub char_length : String → ℕ
  pub is_blank : String → Bool
