-- ===== src/Connector/Fields.antt =====
-- The fields of a connector's message, as `parseConnectorMessage` of src/connector/server.ts reads them.
use livis_chatgpt_bridge.Prelude.{
  ℕ, ◌≡◌, ◌⊎◌, inl, inr, refl, sym, ap, subst, arith, Bool, true, false, Option, none, some, String,
  str_eq, Bool-cases, eq_iff,
}
use livis_chatgpt_bridge.Protocol.Json.{
  Json, Fields, no_field, text, number, object, bool, array, get_field, valid, Text, WireError,
}
use livis_chatgpt_bridge.Protocol.Intake.{valid_inj, refused_not_valid}
use livis_chatgpt_bridge.Connector.Messages.{
  InboundMessage, hello, accepted, result, failed, cancelled, pong, demand, require_string,
  require_object, is_number, is_text, is_true, disposition,
}

-- The field is this text.
abbrev pub IsText : Fields → String → String → Type 0
IsText fields key s = get_field key fields ≡ some (text s)

-- The disposition of a cancellation, as it was sent.
abbrev pub IsDisposition : Option Json → Bool → Type 0
IsDisposition sent true = sent ≡ some (text "not_started")
IsDisposition sent false = sent ≡ none

-- The fields name a job and a lease.
abbrev pub HasLease : Fields → String → String → String → Type 0
HasLease fields type_name job_id lease_id =
    IsText fields "type" type_name
    × IsText fields "jobId" job_id
    × (str_eq job_id "" ≡ false)
    × IsText fields "leaseId" lease_id
    × (str_eq lease_id "" ≡ false)

-- The fields of an object are those of the message.
abbrev pub Describes : Text → Fields → InboundMessage → Type 0
Describes js fields (hello h) =
    (implementation : Fields) × (capabilities : Fields) × IsText fields "type" "hello"
    × (get_field "protocolVersion" fields ≡ some (number 1))
    × IsText fields "connectorId" h.connector_id
    × (js.is_blank h.connector_id ≡ false)
    × IsText fields "backend" "hermes"
    × (get_field "implementation" fields ≡ some (object implementation))
    × (get_field "capabilities" fields ≡ some (object capabilities))
    × IsText implementation "name" h.name
    × IsText implementation "version" h.version
    × IsText implementation "runtimeVersion" h.runtime_version
    × (get_field "cancel" capabilities ≡ some (bool true))
    × (get_field "finalResult" capabilities ≡ some (bool true))
Describes js fields (accepted job_id lease_id) = HasLease fields "accepted" job_id lease_id
Describes js fields (result job_id lease_id body) =
    HasLease fields "result" job_id lease_id × IsText fields "text" body
Describes js fields (failed job_id lease_id error) =
    HasLease fields "failed" job_id lease_id × IsText fields "error" error
Describes js fields (cancelled job_id lease_id not_started) =
    HasLease fields "cancelled" job_id lease_id
    × IsDisposition (get_field "executionDisposition" fields) not_started
Describes js fields pong = IsText fields "type" "pong"

pub required :
    (e : WireError) (v : Option Json) (s : String)
    → require_string e v ≡ valid s
    → v ≡ some (text s)
unfolding require_string
required e (some (text s)) r h = ap (λ t. some (text t)) (valid_inj h)
required e none r h = absurd (refused_not_valid h)
required e (some Json.null) r h = absurd (refused_not_valid h)
required e (some (bool b)) r h = absurd (refused_not_valid h)
required e (some (number k)) r h = absurd (refused_not_valid h)
required e (some (array a)) r h = absurd (refused_not_valid h)
required e (some (object fs)) r h = absurd (refused_not_valid h)

pub holds : (b : Bool) (e : WireError) → ((u : Unit {0}) × (demand b e ≡ valid u)) → b ≡ true
holds true e h = refl
holds false e (u, h) = absurd (refused_not_valid h)

pub number_is : (n : ℕ) (v : Option Json) → is_number n v ≡ true → v ≡ some (number n)
unfolding is_number
number_is n (some (number k)) h = ground (arith, h)
number_is n none h = absurd (cc)
number_is n (some Json.null) h = absurd (cc)
number_is n (some (bool b)) h = absurd (cc)
number_is n (some (text s)) h = absurd (cc)
number_is n (some (array a)) h = absurd (cc)
number_is n (some (object fs)) h = absurd (cc)

pub text_is : (s : String) (v : Option Json) → is_text s v ≡ true → v ≡ some (text s)
unfolding is_text
text_is s (some (text t)) h = ap (λ u. some (text u)) ((eq_iff t s).0 h)
text_is s none h = absurd (cc)
text_is s (some Json.null) h = absurd (cc)
text_is s (some (bool b)) h = absurd (cc)
text_is s (some (number k)) h = absurd (cc)
text_is s (some (array a)) h = absurd (cc)
text_is s (some (object fs)) h = absurd (cc)

pub true_is : (v : Option Json) → is_true v ≡ true → v ≡ some (bool true)
unfolding is_true
true_is (some (bool b)) h = ap (λ c. some (bool c)) h
true_is none h = absurd (cc)
true_is (some Json.null) h = absurd (cc)
true_is (some (text t)) h = absurd (cc)
true_is (some (number k)) h = absurd (cc)
true_is (some (array a)) h = absurd (cc)
true_is (some (object fs)) h = absurd (cc)

-- An object, or an array, of which no field is read.
object_is :
    (e : WireError) (v : Option Json) (fs : Fields)
    → require_object e v ≡ valid fs
    → (v ≡ some (object fs)) ⊎ (fs ≡ no_field)
unfolding require_object
object_is e (some (object fs)) r h = inl (ap (λ g. some (object g)) (valid_inj h))
object_is e (some (array a)) r h = inr (sym (valid_inj h))
object_is e none r h = absurd (refused_not_valid h)
object_is e (some Json.null) r h = absurd (refused_not_valid h)
object_is e (some (bool b)) r h = absurd (refused_not_valid h)
object_is e (some (number k)) r h = absurd (refused_not_valid h)
object_is e (some (text s)) r h = absurd (refused_not_valid h)

-- A text that is read from an object or an array is a field of an object.
pub object_with :
    (e : WireError) (v : Option Json) (fs : Fields) (key : String) (j : Json)
    → require_object e v ≡ valid fs
    → get_field key fs ≡ some j
    → v ≡ some (object fs)
unfolding get_field
object_with e v fs key j h k = elim (object_is e v fs h) [
  | inl o ↦ o
  | inr n ↦ let nothing : none ≡ some j = rw n at k in absurd (cc)
]

pub disposition_is : (v : Option Json) (b : Bool) → disposition v ≡ valid b → IsDisposition v b
unfolding disposition
disposition_is none b h = subst (λ c. IsDisposition none c) (valid_inj h) refl
disposition_is (some (text s)) b h = elim (Bool-cases (str_eq s "not_started")) [
  | inl e ↦
      subst (λ c. IsDisposition (some (text s)) c) (valid_inj (rw e at h))
        (ap (λ t. some (text t)) ((eq_iff s "not_started").0 e))
  | inr e ↦ absurd (refused_not_valid (rw e at h))
]
disposition_is (some Json.null) b h = absurd (refused_not_valid h)
disposition_is (some (bool c)) b h = absurd (refused_not_valid h)
disposition_is (some (number k)) b h = absurd (refused_not_valid h)
disposition_is (some (array a)) b h = absurd (refused_not_valid h)
disposition_is (some (object fs)) b h = absurd (refused_not_valid h)
