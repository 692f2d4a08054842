-- ===== src/Auth/Examples.antt =====
-- src/auth/idaas.ts at concrete inputs: a device that polls, and a refresh that fails.
use livis_chatgpt_bridge.Prelude.{ℕ, ◌≡◌, refl, true, false, none, some, if◌then◌else◌, ◌==◌}
use livis_chatgpt_bridge.Protocol.Json.{no_field, field, text, number, object}
use livis_chatgpt_bridge.Auth.Idaas.{
  DeviceCodeResponse, IdaasClient, Reply, response, tokens, Round, poll_for_token,
}
use livis_chatgpt_bridge.Auth.Tokens.{Ends, poll_for_token-Ends}

abbrev code : DeviceCodeResponse
code = record { expires_in = 30; interval = 5 }

abbrev logged_out : IdaasClient
logged_out = record { access_token = none; access_token_expires_at = 0; refresh_token = none }

abbrev logged_in : IdaasClient
logged_in = record {
  access_token = some "a0";
  access_token_expires_at = 50;
  refresh_token = some "r0";
}

abbrev pending : Reply
pending = response false 428 (field "error" (text "authorization_pending") no_field)

abbrev slow : Reply
slow = response false 400 (field "error" (text "slow_down") no_field)

abbrev grant : Reply
grant = response true 200 (
    field "livis"
      (object (field "access_token" (text "a1") (field "refresh_token" (text "r1") no_field)))
      (field "expires_in" (number 600) no_field))

-- A pending round, one that is too early, and the tokens.
abbrev evening : ℕ → Round
evening n = record {
  overrun = 20;
  reply = if n == 0 then pending else (if n == 1 then slow else grant);
}

got :
    poll_for_token "livis" 31 code evening 1000 logged_out
    ≡ some (
      tokens (record { access_token = "a1"; refresh_token = some "r1"; expires_in = 600 }),
      record {
        access_token = some "a1";
        access_token_expires_at = 561060;
        refresh_token = some "r1";
      },
    )
unfolding poll_for_token
got = refl

poll_for_token-Ends_example :
    Ends logged_out (poll_for_token "livis" 31 code evening 1000 logged_out)
poll_for_token-Ends_example = poll_for_token-Ends "livis" code evening 1000 logged_out
