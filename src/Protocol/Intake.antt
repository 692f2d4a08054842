-- ===== src/Protocol/Intake.antt =====
-- What a message that src/protocol/livis.ts accepts is like.
use livis_chatgpt_bridge.Prelude.{
  ℕ, ◌≤◌, ◌≡◌, refl, sym, ap, subst, true, false, Option, none, some, String, arith, str_eq,
}
use livis_chatgpt_bridge.Types.{IncomingRelayJob}
use livis_chatgpt_bridge.Protocol.Json.{
  Json, Fields, no_field, field, text, number, object, get_field, get_field?, Checked, valid,
  refused, ◌>>=◌, ◌>>◌, Text,
}
use livis_chatgpt_bridge.Protocol.Livis.{
  relay_identifier_max_bytes, relay_node_type_max_bytes, RelayEnvelope, string_of, or_empty,
  or_no_fields, number_or, bounded_text, require_bounded_string, assert_optional_bounded_string,
  data_of, require_exec, content_of, require_send_message, parse_incoming_relay_job,
}

pub refused_not_valid {ℓ} : {A : Type ℓ} {e : _} {a : A} → refused e ≡ valid a → ⊥
refused_not_valid h = cc

value_or {ℓ} : {A : Type ℓ} → A → Checked A → A
value_or d (valid a) = a
value_or d (refused e) = d

pub valid_inj {ℓ} : {A : Type ℓ} {a b : A} → valid a ≡ valid b → a ≡ b
unfolding value_or
valid_inj {a} h = ap (value_or a) h

pub bind_valid {ℓ κ} :
    {A : Type ℓ} {B : Type κ} (m : Checked A) (f : A → Checked B) (b : B)
    → (m >>= f) ≡ valid b
    → (a : A) × (m ≡ valid a) × (f a ≡ valid b)
unfolding ◌>>=◌
bind_valid (valid a) f b h = (a, refl, h)
bind_valid (refused e) f b h = absurd (refused_not_valid h)

pub then_valid {ℓ κ} :
    {A : Type ℓ} {B : Type κ} (m : Checked A) (k : Checked B) (b : B)
    → (m >> k) ≡ valid b
    → ((a : A) × (m ≡ valid a)) × (k ≡ valid b)
unfolding ◌>>◌
then_valid (valid a) k b h = ((a, refl), h)
then_valid (refused e) k b h = absurd (refused_not_valid h)

module _ (js : Text) where
  -- A text that is not blank, of at most so many bytes.
  abbrev pub IsIdentifier : ℕ → String → Type 0
  IsIdentifier max_bytes s = (js.byte_length s ≤ max_bytes) × (js.is_blank s ≡ false)

  abbrev pub IsShort : ℕ → Option String → Type 0
  IsShort max_bytes none = Unit {0}
  IsShort max_bytes (some s) = js.byte_length s ≤ max_bytes

  bounded_text-valid :
      (label : String) (n : ℕ) (s r : String)
      → bounded_text js label n s ≡ valid r
      → IsIdentifier n r
  unfolding bounded_text
  bounded_text-valid label n s r h = ground arith

  required :
      (v : Option Json) (label : String) (n : ℕ) (r : String)
      → require_bounded_string js v label n ≡ valid r
      → IsIdentifier n r
  unfolding require_bounded_string
  required (some (text s)) label n r h = bounded_text-valid label n s r h
  required none label n r h = absurd (refused_not_valid h)
  required (some Json.null) label n r h = absurd (refused_not_valid h)
  required (some (Json.bool b)) label n r h = absurd (refused_not_valid h)
  required (some (number k)) label n r h = absurd (refused_not_valid h)
  required (some (Json.array a)) label n r h = absurd (refused_not_valid h)
  required (some (object fs)) label n r h = absurd (refused_not_valid h)

  pub optional :
      (v : Option String) (label : String) (n : ℕ)
      → ((u : Unit {0}) × (assert_optional_bounded_string js v label n ≡ valid u))
      → IsShort n v
  unfolding assert_optional_bounded_string
  optional none label n h = tt
  optional (some s) label n (u, h) = ground arith

  content :
      (n : ℕ) (v : Option String) (r : String)
      → content_of js n v ≡ valid r
      → (js.is_blank r ≡ false) × (js.char_length r ≤ n)
  unfolding content_of
  content n none r h = absurd (refused_not_valid h)
  content n (some s) r h = ground arith

  -- What the store may count on in a job that came in.
  pub record IsIntake (envelope : RelayEnvelope) (max_input_chars : ℕ) (job : IncomingRelayJob)
      : Type 0 where
    pub kind : str_eq envelope.type_name "send_message" ≡ true
    pub job_id : IsIdentifier relay_identifier_max_bytes job.job_id
    pub message_id : js.byte_length job.message_id ≤ relay_identifier_max_bytes
    pub from_node_id : IsIdentifier relay_identifier_max_bytes job.from_node_id
    pub from_node_type : IsShort relay_node_type_max_bytes job.from_node_type
    pub not_blank : js.is_blank job.text ≡ false
    pub size : js.char_length job.text ≤ max_input_chars
    pub raw : job.raw_payload ≡ js.stringify envelope.fields

  kind_of :
      (t : String)
      → ((u : Unit {0}) × (require_send_message js t ≡ valid u))
      → str_eq t "send_message" ≡ true
  unfolding require_send_message
  kind_of t (u, h) = ground arith

  -- A job that is accepted comes of a `send_message`; its job id and the id of its node are not
  -- blank and have at most 256 bytes, its message id has at most 256 and the type of its node at
  -- most 64; its text is not blank and not longer than the configured bound; and its raw payload is
  -- the text of the whole envelope.
  pub parse_incoming_relay_job-IsIntake :
      (envelope : RelayEnvelope) (max_input_chars now : ℕ) (job : IncomingRelayJob)
      → parse_incoming_relay_job js envelope max_input_chars now ≡ valid job
      → IsIntake envelope max_input_chars job
  unfolding parse_incoming_relay_job
  parse_incoming_relay_job-IsIntake envelope max_input_chars now job h0 =
      let (kind, h1) = then_valid _ _ _ h0 in
      let (id, id_ok, h2) = bind_valid _ _ _ h1 in
      let (message, h3) = then_valid _ _ _ h2 in
      let (node, node_ok, h4) = bind_valid _ _ _ h3 in
      let (node_type, h5) = then_valid _ _ _ h4 in
      let (data_fields, data_ok, h6) = bind_valid _ _ _ h5 in
      let (data_type, h7) = then_valid _ _ _ h6 in
      let (exec, h8) = then_valid _ _ _ h7 in
      let (words, words_ok, h9) = bind_valid _ _ _ h8 in
      subst (λ j. IsIntake envelope max_input_chars j) (valid_inj h9)
        (record {
          kind = kind_of envelope.type_name kind;
          job_id = required _ _ _ id id_ok;
          message_id =
              optional (some (or_empty (string_of (get_field? "msg_id" envelope.metadata)))) _
                relay_identifier_max_bytes message;
          from_node_id = required _ _ _ node node_ok;
          from_node_type =
              optional (string_of (get_field "from_node_type" (or_no_fields envelope.payload))) _
                relay_node_type_max_bytes node_type;
          not_blank = (content max_input_chars _ words words_ok).0;
          size = (content max_input_chars _ words words_ok).1;
          raw = refl;
        })

  bounded_text-accepts :
      (label s : String) (n : ℕ) → IsIdentifier n s → bounded_text js label n s ≡ valid s
  unfolding bounded_text
  bounded_text-accepts label s n h = ground arith

  optional-accepts :
      (v : Option String) (label : String) (n : ℕ)
      → IsShort n v
      → assert_optional_bounded_string js v label n ≡ valid tt
  unfolding assert_optional_bounded_string
  optional-accepts none label n h = refl
  optional-accepts (some s) label n h = ground arith

  content-accepts :
      (n : ℕ) (s : String)
      → js.is_blank s ≡ false
      → js.char_length s ≤ n
      → content_of js n (some s) ≡ valid s
  unfolding content_of
  content-accepts n s b h = ground arith

  abbrev pub type_fields : Option String → Fields
  type_fields none = no_field
  type_fields (some t) = field "from_node_type" (text t) no_field

  -- The message of a job as the relay sends it.
  abbrev pub message_of : IncomingRelayJob → Fields → RelayEnvelope
  message_of job fields = record {
    type_name = "send_message";
    metadata = some (
        field "job_id" (text job.job_id) (
          field "msg_id" (text job.message_id)
            (field "timestamp" (number job.timestamp) no_field)));
    payload = some (
        field "from_node_id" (text job.from_node_id) (
          field "data"
            (object (field "type" (text "exec") (field "content" (text job.text) no_field)))
            (type_fields job.from_node_type)));
    fields = fields;
  }

  type_back : (o : Option String) → string_of (get_field "from_node_type" (type_fields o)) ≡ o
  unfolding string_of get_field
  type_back none = refl
  type_back (some t) = refl

  -- A job whose fields keep the bounds, sent as a `send_message` with an `exec`, is accepted as it is,
  -- provided that the word `exec` has at most 64 bytes.
  pub parse_incoming_relay_job-message_of :
      (job : IncomingRelayJob) (fields : Fields) (max_input_chars now : ℕ)
      → js.byte_length "exec" ≤ relay_node_type_max_bytes
      → IsIntake (message_of job fields) max_input_chars job
      → parse_incoming_relay_job js (message_of job fields) max_input_chars now ≡ valid job
  unfolding parse_incoming_relay_job require_send_message require_bounded_string get_field
      get_field? string_of or_empty or_no_fields data_of require_exec number_or ◌>>=◌ ◌>>◌
  parse_incoming_relay_job-message_of job fields max_input_chars now exec_short h =
      let short : IsShort relay_identifier_max_bytes (some job.message_id) = h.message_id in
      let kind : IsShort relay_node_type_max_bytes (some "exec") = exec_short in
      rw (bounded_text-accepts "send_message.metadata.job_id" job.job_id _ h.job_id) (
        rw (optional-accepts (some job.message_id) "send_message.metadata.msg_id" _ short) (
          rw
            (bounded_text-accepts "send_message.payload.from_node_id" job.from_node_id _
              h.from_node_id)
            (rw (type_back job.from_node_type) (
              rw
                (optional-accepts job.from_node_type "send_message.payload.from_node_type" _
                  h.from_node_type)
                (rw (optional-accepts (some "exec") "send_message.payload.data.type" _ kind)
                  (rw (content-accepts _ job.text h.not_blank h.size) (rw (sym h.raw) refl)))))))
