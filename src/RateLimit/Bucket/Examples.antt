-- ===== src/RateLimit/Bucket/Examples.antt =====
-- The token bucket at concrete requests.
use secure_api_gateway.Prelude.{
  ◌+◌, ◌*◌, ◌≤◌, ◌≡◌, ◌≢◌, true, false, some, String, List, [], ◌∷◌, leb, arith, refl, ceil_div,
  inl, inr, if◌then◌else◌,
}
use secure_api_gateway.Prelude.Int.{pos}
use secure_api_gateway.Prelude.Texts.{
  is_lower, is_digit, is_empty, strip_string, lstrip_string, rstrip_string, keep_before, is_space,
}
use secure_api_gateway.Redis.Memory.{memory, vacant, fields_of, assign, expiring, set, aged}
use secure_api_gateway.Http.{ok}
use secure_api_gateway.Login.Client.{answered, read_clock}
use secure_api_gateway.RateLimit.{decision_valid}
use secure_api_gateway.RateLimit.Bucket.{
  reply, Policy, state_ttl_seconds, policy_valid, policy_name_valid, is_name_char, token_bucket,
  take_tokens, stored_or_full, store_bucket,
}
use secure_api_gateway.RateLimit.Bucket.Level.{level, left}
use secure_api_gateway.RateLimit.Bucket.Scripts.{view, report, IsUsable, token_bucket-refines}
use secure_api_gateway.RateLimit.Bucket.Admitted.{
  Request, admitted, forward, ArePrompt, admitted-capacity,
}
use secure_api_gateway.RateLimit.Bucket.Aging.{IsPrompt}
use secure_api_gateway.RateLimit.Bucket.Retry.{allowed_of, retry-exact}
use secure_api_gateway.RateLimit.Bucket.Limiter.{
  build_key, check, run_script, script_call, evaluate_with, treat, raw_of, parse_result,
  decide_values, make_decision, remaining_of,
}
use secure_api_gateway.RateLimit.Bucket.Limiter.Checks.{decision_of, check-decides}

-- Five tokens, and one more every two seconds.
abbrev slow : Policy
slow = record { name = "proxy"; capacity = 5; numerator = 1; denominator = 2; cost = 1 }

slow_valid : policy_valid slow ≡ true
unfolding policy_valid policy_name_valid is_name_char is_lower is_digit
slow_valid = refl

abbrev usable : IsUsable memory slow 20_000
usable = record {
  capacity = omega arith;
  rate = omega arith;
  cost = omega arith;
  ttl_positive = omega arith;
}

token_bucket-refines_example :
    let (r, st') = token_bucket memory "k" slow 1_000 20_000 vacant in
    (view memory st' "k"
      ≡ some (record {
        tokens = left 10_000 1 2_000 1_000 (view memory vacant "k");
        last_refill = 1_000;
      }))
    × (r ≡ report 10_000 1 2_000 (level 10_000 1 1_000 (view memory vacant "k")))
    × ((other : String) → "k" ≢ other → view memory st' other ≡ view memory vacant other)
token_bucket-refines_example = token_bucket-refines memory "k" slow 1_000 20_000 vacant usable

address_given : is_empty (strip_string " 192.0.2.7 ") ≡ false
unfolding is_empty strip_string lstrip_string rstrip_string keep_before is_space
address_given = refl

abbrev same : String → String
same identity = identity

-- Three requests, the last after the key expired.
abbrev some_requests : List Request
some_requests = (500, 1_500) ∷ (30_000, 31_500) ∷ []

some_requests-ArePrompt : ArePrompt slow 1_000 some_requests
unfolding state_ttl_seconds ceil_div
some_requests-ArePrompt = (inl (omega arith), (inr (omega arith), tt))

admitted-capacity_example :
    admitted memory same "gateway" slow " 192.0.2.7 " ((0, 1_000) ∷ some_requests) vacant * 2_000
    ≤ 10_000 + forward 1_000 some_requests * 1
admitted-capacity_example =
    admitted-capacity memory same "gateway" slow " 192.0.2.7 " slow_valid address_given 0 1_000
      some_requests vacant some_requests-ArePrompt

check-decides_example :
    let key = build_key same "gateway" (strip_string " 192.0.2.7 ") slow in
    let (r, b) =
      check memory same "gateway" slow
        (pos 1_000)
        " 192.0.2.7 "
        (record { store = vacant; faults = answered ∷ [] }) in
    (r ≡ ok (decision_of slow (level 10_000 1 1_000 (view memory vacant key))))
    × (view memory b.store key
        ≡ some (record {
          tokens = left 10_000 1 2_000 1_000 (view memory vacant key);
          last_refill = 1_000;
        }))
    × (b.faults ≡ [])
    × ((other : String) → key ≢ other → view memory b.store other ≡ view memory vacant other)
check-decides_example =
    check-decides memory same "gateway" slow " 192.0.2.7 " 1_000 vacant [] slow_valid address_given

-- One token, and one more every second.
abbrev single : Policy
single = record { name = "single"; capacity = 1; numerator = 1; denominator = 1; cost = 1 }

single-IsUsable : IsUsable memory single (state_ttl_seconds single * 1000)
unfolding state_ttl_seconds ceil_div
single-IsUsable = record {
  capacity = omega arith;
  rate = omega arith;
  cost = omega arith;
  ttl_positive = omega arith;
}

-- The store after the one token is taken.
abbrev taken : memory.Store
taken = (token_bucket memory "k" single 1_000 2_000 vacant).1

single_refused :
    (token_bucket memory "k" single 1_200 (state_ttl_seconds single * 1000) taken).0
    ≡ reply 0 200 800 800
unfolding token_bucket take_tokens stored_or_full store_bucket ceil_div state_ttl_seconds fields_of
    assign expiring set
single_refused = refl

single-IsPrompt : IsPrompt single 800 1_200 2_000
unfolding state_ttl_seconds ceil_div
single-IsPrompt = inl (omega arith)

retry-exact_example :
    let ttl = state_ttl_seconds single * 1000 in
    let left_there = (token_bucket memory "k" single 1_200 ttl taken).1 in
    allowed_of (token_bucket memory "k" single 2_000 ttl (memory.wait 800 left_there)).0
    ≡ (if leb (1_200 + 800) 2_000 then 1 else 0)
retry-exact_example =
    retry-exact memory "k" single 1_200 2_000 800 200 800 800 taken single-IsUsable (omega arith)
      single_refused (omega arith) single-IsPrompt

-- Two gateways whose clocks are a second apart take turns: the bucket is filled anew for each request
-- of the one that is ahead, a millisecond after the other.
skewed_clocks :
    admitted memory same "gateway" single "192.0.2.7"
      ((0, 1_000) ∷ (1, 0) ∷ (1, 1_000) ∷ (1, 0) ∷ (1, 1_000) ∷ [])
      vacant
    ≡ 3
unfolding admitted check run_script script_call evaluate_with treat read_clock raw_of parse_result
    decide_values make_decision remaining_of decision_valid build_key is_empty strip_string
    lstrip_string rstrip_string keep_before is_space state_ttl_seconds token_bucket take_tokens
    stored_or_full store_bucket ceil_div fields_of assign expiring set aged
skewed_clocks = refl
