-- ===== src/Clients/Base/Tests.antt =====
-- Runs of `_request`.
use yandex_workspace_mcp.Prelude.{
  ℕ, zero, suc, ◌+◌, ◌≡◌, ◌≤◌, ◌<◌, ◌-◌, refl, true, text, [], ◌∷◌, none, some, All, length,
  if◌then◌else◌, text_eq,
}
use yandex_workspace_mcp.Errors.{ok, err, upstream_unavailable}
use yandex_workspace_mcp.Clients.Base.{
  Outcome, responds, Network, mutation, upper, default_semantics, selected, is_safe, max_attempts,
  raise_for_status, is_retried, settled, tries_again, backoff, retry_delay, loop, request,
}
use yandex_workspace_mcp.Clients.Base.Attempts.{Translated, request_lem}

-- The first attempt gets a 503, the second one an answer; each takes 3.
abbrev answer_to : ℕ → Outcome
answer_to zero = responds (record { status_code = 503; retry_after = some (text "1") })
answer_to (suc attempt) = responds (record { status_code = 200; retry_after = none })

abbrev flaky : Network
flaky = record {
  send = λ attempt now. (answer_to attempt, now + 3);
  parse_seconds = λ header. some 2;
  jitter = λ attempt bound. bound;
  wake = λ now delay. now + delay;
  half_second = 1;
}

unfoldable runs : Unit {0}
unfolding text_eq upper default_semantics max_attempts raise_for_status is_retried settled
    tries_again backoff retry_delay loop request
runs = tt

read_retried :
    request flaky (text "get") none none 60 true none 100
    ≡ (ok (record { status_code = 200; retry_after = none }), 105 ∷ 100 ∷ [])
unfolding runs
read_retried = refl

mutation_sent_once :
    request flaky (text "PUT") none none 60 true none 100 ≡ (err upstream_unavailable, 100 ∷ [])
unfolding runs
mutation_sent_once = refl

request_lem_example :
    All (λ now. now - 100 < 60) (request flaky (text "PUT") none (some mutation) 60 true none 100).1
    × (length (request flaky (text "PUT") none (some mutation) 60 true none 100).1
        ≤ (if is_safe (selected (text "PUT") (some mutation)) then 3 else 1))
    × Translated true (request flaky (text "PUT") none (some mutation) 60 true none 100).0
request_lem_example = request_lem flaky (text "PUT") none (some mutation) 60 true none 100
