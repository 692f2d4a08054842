-- ===== src/Connector/Intake.antt =====
-- What `parseConnectorMessage` of src/connector/server.ts accepts, and that it loses nothing.
use livis_chatgpt_bridge.Prelude.{
  ◌≡◌, ◌↔◌, inl, inr, refl, ◌∙◌, ap, subst, arith, true, false, not, ◌&&◌, Option, none, some,
  String, str_eq, Bool-cases, eq_iff,
}
use livis_chatgpt_bridge.Protocol.Json.{
  Json, Fields, text, number, object, bool, array, get_field, valid, ◌>>=◌, ◌>>◌, Text, missing,
  bad_hello, bad_capability, missing_lease, bad_text, bad_error,
}
use livis_chatgpt_bridge.Protocol.Livis.{parse_json_object, object_of}
use livis_chatgpt_bridge.Protocol.Intake.{valid_inj, bind_valid, then_valid, refused_not_valid}
use livis_chatgpt_bridge.Connector.Messages.{
  InboundMessage, hello, accepted, result, failed, cancelled, pong, demand, require_string,
  require_object, is_number, is_text, is_true, disposition, parse_hello, job_message, is_job_type,
  parse_job_message, message_of_type, parse_connector_message,
}
use livis_chatgpt_bridge.Connector.Fields.{
  IsText, HasLease, Describes, required, holds, number_is, text_is, true_is, object_with,
  disposition_is,
}

module _ (js : Text) where
  becomes :
      (fields : Fields) (n m : InboundMessage)
      → valid n ≡ valid m
      → Describes js fields n
      → Describes js fields m
  becomes fields n m e d = subst (Describes js fields) (valid_inj e) d

  job_described :
      (type_name job_id lease_id : String) (fields : Fields) (m : InboundMessage)
      → is_job_type type_name ≡ true
      → HasLease fields type_name job_id lease_id
      → job_message type_name job_id lease_id fields ≡ valid m
      → Describes js fields m
  unfolding job_message is_job_type
  job_described type_name job_id lease_id fields m k lease h =
      elim (Bool-cases (str_eq type_name "accepted")) [
        | inl e ↦
            becomes fields (accepted job_id lease_id) m (rw e at h)
              (is ((eq_iff type_name _).0 e) lease)
        | inr e ↦ elim (Bool-cases (str_eq type_name "result")) [
          | inl f ↦
              let (body, got, same) = bind_valid _ _ _ (rw (e, f) at h) in
              becomes fields (result job_id lease_id body) m same
                (is ((eq_iff type_name _).0 f) lease, required bad_text _ body got)
          | inr f ↦ elim (Bool-cases (str_eq type_name "failed")) [
            | inl g ↦
                let (body, got, same) = bind_valid _ _ _ (rw (e, f, g) at h) in
                becomes fields (failed job_id lease_id body) m same
                  (is ((eq_iff type_name _).0 g) lease, required bad_error _ body got)
            | inr g ↦
                let (flag, got, same) = bind_valid _ _ _ (rw (e, f, g) at h) in
                let last : str_eq type_name "cancelled" ≡ true = rw (e, f, g) at k in
                becomes fields (cancelled job_id lease_id flag) m same
                  (is ((eq_iff type_name _).0 last) lease, disposition_is _ flag got)
          ]
        ]
      ]
    where
      is :
          {t u : String}
          → t ≡ u
          → HasLease fields t job_id lease_id
          → HasLease fields u job_id lease_id
      is e l = subst (λ t. HasLease fields t job_id lease_id) e l

  job_parsed :
      (type_name : String) (fields : Fields) (m : InboundMessage)
      → IsText fields "type" type_name
      → is_job_type type_name ≡ true
      → parse_job_message type_name fields ≡ valid m
      → Describes js fields m
  unfolding parse_job_message
  job_parsed type_name fields m t f h0 =
      let (job_id, job_ok, h1) = bind_valid _ _ _ h0 in
      let (lease_id, lease_ok, h2) = bind_valid _ _ _ h1 in
      let (both_ok, h3) =
        then_valid (demand (not (str_eq job_id "") && not (str_eq lease_id "")) missing_lease)
          (job_message type_name job_id lease_id fields) m h2 in
      let both = holds (not (str_eq job_id "") && not (str_eq lease_id "")) missing_lease both_ok in
      job_described type_name job_id lease_id fields m f
        (
          t,
          required missing_lease (get_field "jobId" fields) job_id job_ok,
          ground (arith, both),
          required missing_lease (get_field "leaseId" fields) lease_id lease_ok,
          ground (arith, both),
        )
        h3

  pong_described :
      (type_name : String) (fields : Fields) (m : InboundMessage)
      → IsText fields "type" type_name
      → str_eq type_name "hello" ≡ false
      → is_job_type type_name ≡ false
      → message_of_type js type_name fields ≡ valid m
      → Describes js fields m
  unfolding message_of_type
  pong_described type_name fields m t e f h = elim (Bool-cases (str_eq type_name "pong")) [
    | inl g ↦
        becomes fields pong m (rw (e, f, g) at h)
          (t ∙ ap (λ u. some (text u)) ((eq_iff type_name "pong").0 g))
    | inr g ↦ absurd (refused_not_valid (rw (e, f, g) at h))
  ]

  hello_described :
      (fields : Fields) (m : InboundMessage)
      → IsText fields "type" "hello"
      → parse_hello js fields ≡ valid m
      → Describes js fields m
  unfolding parse_hello
  hello_described fields m t h0 =
      let (version_ok, h1) = then_valid _ _ _ h0 in
      let (id, id_ok, h2) = bind_valid _ _ _ h1 in
      let (named_ok, h3) = then_valid _ _ _ h2 in
      let (backend_ok, h4) = then_valid _ _ _ h3 in
      let (implementation, implementation_ok, h5) = bind_valid _ _ _ h4 in
      let (capabilities, capabilities_ok, h6) = bind_valid _ _ _ h5 in
      let (name, name_ok, h7) = bind_valid _ _ _ h6 in
      let (version, v_ok, h8) = bind_valid _ _ _ h7 in
      let (runtime, runtime_ok, h9) = bind_valid _ _ _ h8 in
      let (both_ok, h10) = then_valid _ _ _ h9 in
      let both = holds _ _ both_ok in
      let name_is = required bad_capability _ name name_ok in
      let cancel_is = true_is (get_field "cancel" capabilities) (ground (arith, both)) in
      let final_is = true_is (get_field "finalResult" capabilities) (ground (arith, both)) in
      becomes fields
        (hello
          (record { connector_id = id; name = name; version = version; runtime_version = runtime }))
        m h10
        (
          implementation,
          capabilities,
          t,
          number_is 1 _ (holds _ _ version_ok),
          required bad_hello _ id id_ok,
          unblank id (holds _ _ named_ok),
          text_is "hermes" _ (holds _ _ backend_ok),
          object_with bad_hello _ implementation "name" (text name) implementation_ok name_is,
          object_with bad_hello _ capabilities "cancel" (bool true) capabilities_ok cancel_is,
          name_is,
          required bad_capability _ version v_ok,
          required bad_capability _ runtime runtime_ok,
          cancel_is,
          final_is,
        )
    where
      unblank : (s : String) → not (js.is_blank s) ≡ true → js.is_blank s ≡ false
      unblank s e = ground (arith, e)

  type_described :
      (type_name : String) (fields : Fields) (m : InboundMessage)
      → IsText fields "type" type_name
      → message_of_type js type_name fields ≡ valid m
      → Describes js fields m
  type_described type_name fields m t h = elim (Bool-cases (str_eq type_name "hello")) [
    | inl e ↦
        hello_described fields m (t ∙ ap (λ u. some (text u)) ((eq_iff type_name "hello").0 e))
          (unfold message_of_type in (rw e at h))
    | inr e ↦ elim (Bool-cases (is_job_type type_name)) [
      | inr f ↦ pong_described type_name fields m t e f h
      | inl f ↦
          let job_case : parse_job_message type_name fields ≡ valid m =
            unfold message_of_type in (rw (e, f) at h) in
          job_parsed type_name fields m t f job_case
    ]
  ]

  abbrev type_of : InboundMessage → String
  type_of (hello h) = "hello"
  type_of (accepted job_id lease_id) = "accepted"
  type_of (result job_id lease_id body) = "result"
  type_of (failed job_id lease_id error) = "failed"
  type_of (cancelled job_id lease_id not_started) = "cancelled"
  type_of pong = "pong"

  typed :
      (fields : Fields) (m : InboundMessage)
      → Describes js fields m
      → IsText fields "type" (type_of m)
  typed fields (hello h) d = d.2
  typed fields (accepted job_id lease_id) d = d.0
  typed fields (result job_id lease_id body) d = d.0.0
  typed fields (failed job_id lease_id error) d = d.0.0
  typed fields (cancelled job_id lease_id not_started) d = d.0.0
  typed fields pong d = d

  described :
      (fields : Fields) (m : InboundMessage)
      → Describes js fields m
      → message_of_type js (type_of m) fields ≡ valid m
  unfolding message_of_type parse_hello parse_job_message job_message is_job_type require_string
      require_object is_number is_text is_true disposition ◌>>=◌ ◌>>◌
  described fields (hello h) (implementation, capabilities, t, v, c, b, k, i, p, n, r, w, x, y) =
      rw (v, c, b, k, i, p, n, r, w, x, y)
  described fields (accepted job_id lease_id) (t, j, j', l, l') = rw (j, l, j', l')
  described fields (result job_id lease_id body) ((t, j, j', l, l'), b) = rw (j, l, j', l', b)
  described fields (failed job_id lease_id error) ((t, j, j', l, l'), b) = rw (j, l, j', l', b)
  described fields (cancelled job_id lease_id true) ((t, j, j', l, l'), b) = rw (j, l, j', l', b)
  described fields (cancelled job_id lease_id false) ((t, j, j', l, l'), b) = rw (j, l, j', l', b)
  described fields pong t = refl

  parsed_object :
      (label raw : String) (fields : Fields)
      → parse_json_object js raw label ≡ valid fields
      → js.parse_json raw ≡ some (object fields)
  unfolding parse_json_object
  parsed_object label raw fields h = inner (js.parse_json raw) h
    where
      inner : (v : Option Json) → object_of js label v ≡ valid fields → v ≡ some (object fields)
      inner none h = absurd (refused_not_valid (unfold object_of in h))
      inner (some (object g)) h = ap (λ f. some (object f)) (valid_inj (unfold object_of in h))
      inner (some Json.null) h = absurd (refused_not_valid (unfold object_of in h))
      inner (some (bool b)) h = absurd (refused_not_valid (unfold object_of in h))
      inner (some (number k)) h = absurd (refused_not_valid (unfold object_of in h))
      inner (some (text t)) h = absurd (refused_not_valid (unfold object_of in h))
      inner (some (array a)) h = absurd (refused_not_valid (unfold object_of in h))

  accepted_described :
      (raw : String) (m : InboundMessage)
      → parse_connector_message js raw ≡ valid m
      → (fields : Fields) × (js.parse_json raw ≡ some (object fields)) × Describes js fields m
  unfolding parse_connector_message
  accepted_described raw m h0 =
      let (fields, fields_ok, h1) = bind_valid _ _ _ h0 in
      let (type_name, type_ok, h2) = bind_valid _ _ _ h1 in
      let t =
        required (missing "connector message.type") (get_field "type" fields) type_name type_ok in
      (
        fields,
        parsed_object "connector message" raw fields fields_ok,
        type_described type_name fields m t h2,
      )

  described_accepted :
      (raw : String) (m : InboundMessage) (fields : Fields)
      → js.parse_json raw ≡ some (object fields)
      → Describes js fields m
      → parse_connector_message js raw ≡ valid m
  unfolding parse_connector_message parse_json_object object_of require_string ◌>>=◌
  described_accepted raw m fields e d =
      let t = typed fields m d in let whole = described fields m d in rw (e, t) whole

  -- A text is taken for a message of a connector exactly when it is the JSON text of an object whose
  -- fields are those of the message: its type, for a job message the job and the lease, neither empty,
  -- with the text, the error or the disposition; for a hello protocol version 1, an id that is not
  -- blank, the backend hermes, a name and two versions, and both capabilities.
  pub parse_connector_message-Describes :
      (raw : String) (m : InboundMessage)
      → (parse_connector_message js raw ≡ valid m)
        ↔ ((fields : Fields) × (js.parse_json raw ≡ some (object fields)) × Describes js fields m)
  parse_connector_message-Describes raw m =
      (accepted_described raw m, λ d. described_accepted raw m d.0 d.1 d.2)
