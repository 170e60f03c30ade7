-- ===== src/Login/Examples.antt =====
-- Tests of the login protection, and its theorems at concrete inputs, over a store in memory.
use secure_api_gateway.Prelude.{
  ℕ, ◌+◌, ◌-◌, ◌<◌, ◌≡◌, ◌≢◌, refl, some, List, [], ◌∷◌, arith, String,
}
use secure_api_gateway.Prelude.Int.{pos, negsuc}
use secure_api_gateway.Redis.Memory.{
  memory, vacant, assign, fields_of, ttl_of, removed, aged, expiring, set,
}
use secure_api_gateway.Http.{raised, login_protection_backend_error}
use secure_api_gateway.Login.{reply, lock_status, count_failure, record_failure}
use secure_api_gateway.Login.Account.{fail, settle}
use secure_api_gateway.Login.Scripts.{view, report, lock_status-refines, record_failure-refines}
use secure_api_gateway.Login.Failure.{IsAbsent, Limits, IsPositive}
use secure_api_gateway.Login.Attack.{attack, lock_lasts}
use secure_api_gateway.Login.Client.{
  Policy, IsAllowed, several, make_decision, decide_values, parse_decision, answered, lost_reply,
  Identity, canonicalize_login_identifier, build_key, Backend,
}

abbrev limits : Limits
limits = record { threshold = 5; window = 900_000; lockout = 300_000 }

limits-IsPositive : IsPositive limits
limits-IsPositive = record { threshold = omega arith; window = omega arith; lockout = omega arith }

vacant-IsAbsent : IsAbsent memory "k" limits vacant
unfolding fields_of
vacant-IsAbsent = (refl, refl)

-- Pauses between failed logins, in milliseconds.
abbrev three_waits : List ℕ
three_waits = 10 ∷ 800_000 ∷ 30 ∷ []

abbrev five_waits : List ℕ
five_waits = 10 ∷ 20 ∷ 30 ∷ 40 ∷ 800_000 ∷ []

-- Three failures are counted, and the fifth locks the account.
three_failures :
    (lock_status memory "k" 900_000 (attack memory "k" limits three_waits 1_000 vacant).1).0
    ≡ reply 0 3 0
unfolding lock_status attack record_failure count_failure assign fields_of ttl_of removed aged
    expiring set
three_failures = refl

five_failures :
    (lock_status memory "k" 801_200 (attack memory "k" limits five_waits 1_000 vacant).1).0
    ≡ reply 1 5 299_900
unfolding lock_status attack record_failure count_failure assign fields_of ttl_of removed aged
    expiring set
five_failures = refl

abbrev locked_store : memory.Store
locked_store = memory.wait 1_000 (attack memory "k" limits five_waits 1_000 vacant).1

abbrev end_of_attack : ℕ
end_of_attack = (attack memory "k" limits five_waits 1_000 vacant).0

lock_lasts_example :
    (1_000 < 300_000
      → (lock_status memory "k" (end_of_attack + 1_000) locked_store
          ≡ (reply 1 5 (300_000 - 1_000), locked_store))
        × (record_failure memory "k" 5 (end_of_attack + 1_000) 900_000 300_000 locked_store
            ≡ (reply 1 5 (300_000 - 1_000), locked_store)))
    × (300_000 < 1_000
        → (lock_status memory "k" (end_of_attack + 1_000) locked_store).0 ≡ reply 0 0 0)
lock_lasts_example =
    lock_lasts memory "k" limits five_waits 1_000 1_000 vacant limits-IsPositive vacant-IsAbsent
      (omega arith, (omega arith, (omega arith, (omega arith, (omega arith, tt))))) refl

lock_status-refines_example :
    let (r, st) = lock_status memory "k" 9 vacant in
    (view memory st "k" ≡ settle 9 (view memory vacant "k"))
    × (r ≡ report 9 (view memory st "k"))
    × ((other : String) → "k" ≢ other → view memory st other ≡ view memory vacant other)
lock_status-refines_example = lock_status-refines memory "k" 9 vacant

record_failure-refines_example :
    let (r, st) = record_failure memory "k" 5 9 900_000 300_000 vacant in
    (view memory st "k" ≡ fail 5 9 300_000 (view memory vacant "k"))
    × (r ≡ report 9 (view memory st "k"))
    × ((other : String) → "k" ≢ other → view memory st other ≡ view memory vacant other)
record_failure-refines_example =
    record_failure-refines memory "k" 5 9 900_000 300_000 vacant (omega arith) (omega arith)
      (omega arith)

abbrev policy : Policy
policy = record {
  name = "account-login";
  failure_threshold = 5;
  failure_window_seconds = 900;
  lockout_seconds = 300;
}

policy-IsAllowed : IsAllowed policy
policy-IsAllowed = record {
  threshold = (omega arith, omega arith);
  window = (omega arith, omega arith);
  lockout = (omega arith, omega arith);
}

abbrev identity : Identity
identity = record { normalize = λ s. s; digest = λ s. s }

-- No identifier at all has a key too.
empty_identifier :
    build_key identity "gateway" "" policy
    ≡ "gateway:login-protection:account-login:<empty-login-identifier>"
unfolding build_key canonicalize_login_identifier
empty_identifier = refl

negative_values :
    parse_decision (several (some (pos 0) ∷ some (negsuc 0) ∷ some (pos 0) ∷ []))
    ≡ raised login_protection_backend_error
unfolding parse_decision decide_values make_decision
negative_values = refl

abbrev reachable : Backend memory
reachable = record { store = vacant; faults = answered ∷ [] }

abbrev unreachable : Backend memory
unreachable = record { store = vacant; faults = lost_reply ∷ [] }

abbrev alice_key : String
alice_key = build_key identity "gateway" "alice" policy
