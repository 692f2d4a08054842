-- ===== src/Protocol/Candidates.antt =====
-- The ids that `resultAckCandidates` of src/protocol/livis.ts finds in an ACK.
use livis_chatgpt_bridge.Prelude.{
  ℕ, ◌+◌, ◌≤◌, suc, ◌≡◌, sym, ◌∙◌, false, List, [], ◌∷◌, ◌++◌, Option, none, some, String, arith,
  str_eq, str_eq_sym, All, All-append, length, length-append, Bool-cases, inl, inr,
}
use livis_chatgpt_bridge.Protocol.Json.{Json, get_field?, valid, Text}
use livis_chatgpt_bridge.Protocol.Livis.{
  relay_identifier_max_bytes, RelayEnvelope, string_of, includes, add_candidate, collect_candidates,
  result_ack_candidates,
}
use livis_chatgpt_bridge.Protocol.Intake.{then_valid, optional, valid_inj, IsShort}

module _ (js : Text) where
  -- No text occurs twice.
  abbrev pub IsDistinct : List String → Type 0
  IsDistinct [] = Unit {0}
  IsDistinct (c ∷ cs) = (includes js cs c ≡ false) × IsDistinct cs

  abbrev pub IsCandidate : String → Type 0
  IsCandidate c = (str_eq c "" ≡ false) × (js.byte_length c ≤ relay_identifier_max_bytes)

  abbrev pub IsCandidates : ℕ → List String → Type 0
  IsCandidates n cs = All IsCandidate cs × IsDistinct cs × (length cs ≤ n)

  includes-append :
      (cs : List String) (v c : String)
      → includes js cs c ≡ false
      → str_eq v c ≡ false
      → includes js (cs ++ v ∷ []) c ≡ false
  unfolding includes
  includes-append [] v c h e = ground arith
  includes-append (d ∷ cs) v c h e = ground (arith, includes-append cs v c)

  append-IsDistinct :
      (cs : List String) (v : String)
      → IsDistinct cs
      → includes js cs v ≡ false
      → IsDistinct (cs ++ v ∷ [])
  unfolding includes
  append-IsDistinct [] v h e = ground arith
  append-IsDistinct (c ∷ cs) v h e =
      let apart : str_eq c v ≡ false = ground arith in
      let rest : includes js cs v ≡ false = ground arith in
      (includes-append cs v c h.0 (str_eq_sym v c ∙ apart), append-IsDistinct cs v h.1 rest)

  add-IsCandidates :
      (n : ℕ) (cs : List String) (v : Option String)
      → IsCandidates n cs
      → IsShort js relay_identifier_max_bytes v
      → IsCandidates (suc n) (add_candidate js cs v)
  unfolding add_candidate
  add-IsCandidates n cs none h s = (h.0, h.1, omega (arith, h.2))
  add-IsCandidates n cs (some v) h s = elim (Bool-cases (str_eq v "")) [
    | inl e ↦ rw e (h.0, h.1, omega (arith, h.2))
    | inr e ↦ elim (Bool-cases (includes js cs v)) [
      | inl i ↦ rw (e, i) (h.0, h.1, omega (arith, h.2))
      | inr i ↦
          rw (e, i)
            (
              All-append IsCandidate cs (v ∷ []) h.0 ((e, s), tt),
              append-IsDistinct cs v h.1 i,
              omega (arith, h.2, length-append cs (v ∷ [])),
            )
    ]
  ]

  collect-IsCandidates :
      (values : List (Option Json)) (n : ℕ) (cs r : List String)
      → IsCandidates n cs
      → collect_candidates js cs values ≡ valid r
      → IsCandidates (n + length values) r
  unfolding collect_candidates
  collect-IsCandidates [] n cs r h e = rw (sym (valid_inj e)) (h.0, h.1, omega (arith, h.2))
  collect-IsCandidates (v ∷ values) n cs r h e =
      let (short, rest) = then_valid _ _ _ e in
      let next =
        collect-IsCandidates values (suc n) (add_candidate js cs (string_of v)) r
          (add-IsCandidates n cs (string_of v) h
            (optional js (string_of v) "ack_send_result 关联 ID" relay_identifier_max_bytes short))
          rest in
      (next.0, next.1, omega (arith, next.2))

  -- The ids that an accepted ACK offers are at most three, none of them empty or longer than 256
  -- bytes, and no two equal.
  pub result_ack_candidates-IsCandidates :
      (envelope : RelayEnvelope) (cs : List String)
      → result_ack_candidates js envelope ≡ valid cs
      → IsCandidates 3 cs
  unfolding result_ack_candidates
  result_ack_candidates-IsCandidates envelope cs h =
      collect-IsCandidates
        (get_field? "ref_msg_id" envelope.payload
          ∷ get_field? "job_id" envelope.metadata
          ∷ get_field? "msg_id" envelope.metadata
          ∷ [])
        0 [] cs (tt, tt, omega arith) h
