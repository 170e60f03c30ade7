-- ===== src/Circuit/Interleaving.antt =====
-- Concurrent requests through one circuit breaker. Every method runs under the breaker's lock, so a
-- run of any number of tasks is a sequence of method calls. Completions come in any order, at any
-- reading of the clock, with any permit, also one that was never issued or was used before.
use secure_api_gateway.Prelude.{
  ℕ, ◌+◌, ◌≤◌, ◌<◌, ◌≡◌, ◌≢◌, ◌⊎◌, refl, true, false, ◌&&◌, List, [], ◌∷◌, arith, ◌==◌,
  if◌then◌else◌, suc,
}
use secure_api_gateway.Prelude.Lists.{All}
use secure_api_gateway.Circuit.{
  Settings, Permit, Circuit, Admission, admitted, rejected, half_open, is_half_open, init,
  before_request, record_success, record_failure, record_neutral,
}
use secure_api_gateway.Circuit.Invariant.{
  IsValid, init-IsValid, before_request-IsValid, record_success-IsValid, record_failure-IsValid,
  record_neutral-IsValid,
}

-- A breaker with every permit that it has issued.
pub record World : Type 0 where
  pub circuit : Circuit
  pub issued : List Permit

pub data Call : Type 0 where
  request : ℕ → Call
  success : Permit → Call
  failure : ℕ → Permit → Call
  neutral : ℕ → Permit → Call

issue : Admission → List Permit → List Permit
issue (admitted p) ps = p ∷ ps
issue (rejected r) ps = ps

-- The state after one call.
unfoldable pub apply : Settings → Circuit → Call → Circuit
apply s c (request now) = (before_request s now c).1
apply s c (success p) = (record_success p c).1
apply s c (failure now p) = (record_failure s now p c).1
apply s c (neutral now p) = (record_neutral now p c).1

unfoldable pub grant : Settings → Circuit → Call → List Permit → List Permit
unfolding issue
grant s c (request now) ps = issue (before_request s now c).0 ps
grant s c _ ps = ps

unfoldable pub step : Settings → World → Call → World
unfolding apply grant
step s w e = record { circuit = apply s w.circuit e; issued = grant s w.circuit e w.issued }

unfoldable pub run : Settings → World → List Call → World
run s w [] = w
run s w (e ∷ es) = run s (step s w e) es

abbrev pub start : World
start = record { circuit = init; issued = [] }

-- How many issued permits are probes of the generation `g`.
abbrev pub live_probes : ℕ → List Permit → ℕ
live_probes g [] = 0
live_probes g (p ∷ ps) =
    let rest = live_probes g ps in if p.half_open_probe && p.generation == g then suc rest else rest

abbrev NotLater : ℕ → List Permit → Type 0
NotLater g = All (λ p. p.generation ≤ g)

abbrev pub probes_due : Circuit → ℕ
probes_due c = if is_half_open c.state then 1 else 0

record IsSound (s : Settings) (w : World) : Type 0 where
  valid : IsValid s w.circuit
  past : NotLater w.circuit.generation w.issued
  probes : live_probes w.circuit.generation w.issued ≡ probes_due w.circuit

apply-IsValid :
    (s : Settings) (c : Circuit) (e : Call)
    → 0 < s.failure_threshold
    → IsValid s c
    → IsValid s (apply s c e)
unfolding apply
apply-IsValid s c (request now) h v = before_request-IsValid s now c v
apply-IsValid s c (success p) h v = record_success-IsValid s p c h v
apply-IsValid s c (failure now p) h v = record_failure-IsValid s now p c v
apply-IsValid s c (neutral now p) h v = record_neutral-IsValid s now p c v

NotLater-suc : (g : ℕ) (ps : List Permit) → NotLater g ps → NotLater (g + 1) ps
NotLater-suc g [] h = tt
NotLater-suc g (p ∷ ps) h = (omega arith, NotLater-suc g ps h.1)

-- No permit belongs to a generation that has not begun.
live_probes-later : (g : ℕ) (ps : List Permit) → NotLater g ps → live_probes (g + 1) ps ≡ 0
live_probes-later g [] h = refl
live_probes-later g (p ∷ ps) h = ground (arith, live_probes-later g ps)

module _ (s : Settings) (w : World) (h : 0 < s.failure_threshold) (i : IsSound s w) where
  step-NotLater : (e : Call) → NotLater (step s w e).circuit.generation (step s w e).issued
  unfolding step before_request record_success record_failure record_neutral
  step-NotLater (request now) = ground (arith, NotLater-suc w.circuit.generation w.issued)
  step-NotLater _ = ground (arith, NotLater-suc w.circuit.generation w.issued)

  step-live_probes :
      (e : Call)
      → live_probes (step s w e).circuit.generation (step s w e).issued
        ≡ probes_due (step s w e).circuit
  unfolding step before_request record_success record_failure record_neutral
  step-live_probes (request now) = ground (arith, live_probes-later w.circuit.generation w.issued)
  step-live_probes _ = ground (arith, live_probes-later w.circuit.generation w.issued)

  step-IsSound : (e : Call) → IsSound s (step s w e)
  step-IsSound e = record {
    valid = unfold step in apply-IsValid s w.circuit e h i.valid;
    past = step-NotLater e;
    probes = step-live_probes e;
  }

run-IsSound :
    (s : Settings) (w : World) (es : List Call)
    → 0 < s.failure_threshold
    → IsSound s w
    → IsSound s (run s w es)
unfolding run
run-IsSound s w [] h i = i
run-IsSound s w (e ∷ es) h i = run-IsSound s (step s w e) es h (step-IsSound s w h i e)

start-IsSound : (s : Settings) → 0 < s.failure_threshold → IsSound s start
start-IsSound s h = record { valid = init-IsValid s h; past = tt; probes = unfold init in refl }

-- After any calls in any order, the fields agree with the state: a closed circuit has counted fewer
-- failures than the threshold and has no opening time; an open or half-open one has counted exactly
-- the threshold and has an opening time; a probe is in flight exactly while it is half open.
pub run-IsValid :
    (s : Settings) (es : List Call) → 0 < s.failure_threshold → IsValid s (run s start es).circuit
run-IsValid s es h = (run-IsSound s start es h (start-IsSound s h)).valid

-- After any calls in any order, exactly one issued permit is a probe of the current generation while
-- the circuit is half open, and none is while it is closed or open.
pub run-live_probes :
    (s : Settings) (es : List Call)
    → 0 < s.failure_threshold
    → let w = run s start es in live_probes w.circuit.generation w.issued ≡ probes_due w.circuit
run-live_probes s es h = (run-IsSound s start es h (start-IsSound s h)).probes

generation-le-step :
    (s : Settings) (w : World) (e : Call) → w.circuit.generation ≤ (step s w e).circuit.generation
unfolding step before_request record_success record_failure record_neutral
generation-le-step s w (request now) = ground arith
generation-le-step s w _ = ground arith

generation-le-run :
    (s : Settings) (w : World) (es : List Call)
    → w.circuit.generation ≤ (run s w es).circuit.generation
unfolding run
generation-le-run s w [] = omega arith
generation-le-run s w (e ∷ es) =
    omega (arith, generation-le-step s w e, generation-le-run s (step s w e) es)

-- The three completions of a permit leave the circuit as it is, and report no transition.
abbrev pub IsInert : Settings → Permit → Circuit → Type 0
IsInert s p c =
    (record_success p c ≡ (false, c))
    × ((now : ℕ) → record_failure s now p c ≡ (false, c))
    × ((now : ℕ) → record_neutral now p c ≡ (false, c))

stale-IsInert :
    (s : Settings) (p : Permit) (c : Circuit) → p.generation < c.generation → IsInert s p c
unfolding record_success record_failure record_neutral
stale-IsInert s p c h = (ground arith, λ now. ground arith, λ now. ground arith)

-- Once the circuit has left the generation of a permit, no completion of that permit changes it or
-- reports a transition, whatever calls come in between.
pub run-stale :
    (s : Settings) (w : World) (es : List Call) (p : Permit)
    → p.generation < w.circuit.generation
    → IsInert s p (run s w es).circuit
run-stale s w es p h =
    stale-IsInert s p (run s w es).circuit (omega (arith, generation-le-run s w es))

-- A call completes the probe of the current generation.
abbrev pub Settles : Permit → Call → Type 0
Settles p (request now) = ⊥
Settles p (success q) = p ≡ q
Settles p (failure now q) = p ≡ q
Settles p (neutral now q) = p ≡ q

abbrev pub probe_of : Circuit → Permit
probe_of c = record { generation = c.generation; half_open_probe = true }

-- While a valid circuit is half open, a call either leaves it as it is or completes the one probe of
-- its generation, which makes it closed or open.
pub half_open_waits :
    (s : Settings) (w : World) (e : Call)
    → IsValid s w.circuit
    → w.circuit.state ≡ half_open
    → ((step s w e).circuit ≡ w.circuit)
      ⊎ (Settles (probe_of w.circuit) e × ((step s w e).circuit.state ≢ half_open))
unfolding step before_request record_success record_failure record_neutral
half_open_waits s w (request now) v h = ground arith
half_open_waits s w _ v h = ground arith
