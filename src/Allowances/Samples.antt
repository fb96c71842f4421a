-- ===== src/Allowances/Samples.antt =====
-- A concrete answer of the account service: the theorem on anton-runtime/src/allowances.rs
-- applied to it.
use herdr_observatory.Allowances.{summarise, Summary}
use herdr_observatory.Allowances.Accepted.{validate_config-Ok, SourcesOk, AccountsOk}
use herdr_observatory.Allowances.Accounts.{fields_of, validate_config}
use herdr_observatory.Allowances.Fresh.{summarise-Fresh, Fresh}
use herdr_observatory.Fleet.{valid_target}
use herdr_observatory.Json.{
  field_of, Fields, Value, nil, cons, index, end, field, object, text, unsigned, array, get,
}
use herdr_observatory.Prelude.{ltb, ◌≡◌, none, some, refl, Bool, ℕ, String}

abbrev later : ℕ → Bool
later v = ltb 1000 v

abbrev same : String → String
same s = s

-- One weekly window, and a credit that expires.
abbrev answer : Value
answer = object (
    field "accountId" (text "a") (
      field "rateLimits"
        (object (
          field "primary"
            (object (
              field "windowDurationMins" (unsigned 10080)
                (field "usedPercent" (unsigned 30) (field "resetsAt" (unsigned 2000) end))))
            end))
        (field "rateLimitResetCredits"
          (object (
            field "availableCount" (unsigned 1) (
              field "credits"
                (array (
                  cons
                    (object (
                      field "status" (text "available") (
                        field "resetType" (text "codexRateLimits")
                          (field "id" (text "c") (field "expiresAt" (unsigned 1500) end)))))
                    nil))
                end)))
          end)))

abbrev summary : Summary
summary = record {
  account_key = "observatory-codex-account-v1:a";
  plan = none;
  weekly_remaining = some 70;
  weekly_resets_at = some 2000;
  reset_count = some 1;
  reset_expires_at = some 1500;
}

answer-summary : summarise later same answer ≡ some summary
unfolding summarise index get
answer-summary = refl

summarise-Fresh_example : Fresh later summary
summarise-Fresh_example = summarise-Fresh same later answer summary answer-summary

-- One account under a hashed key, and one source.
abbrev configuration : Fields
configuration =
    field "accounts"
      (object (
        field "0000000000000000000000000000000000000000000000000000000000000000" (text "Work") end))
      (field "sources" (array (cons (object (field "target" (text "host") end)) nil)) end)

configuration-accepted : validate_config (some (object configuration)) ≡ none
unfolding validate_config index get valid_target
configuration-accepted = refl

validate_config-Ok_example :
    AccountsOk (fields_of (index (object configuration) "accounts"))
    × SourcesOk (field_of (object configuration) "sources")
validate_config-Ok_example = validate_config-Ok configuration configuration-accepted
