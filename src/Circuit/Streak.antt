-- ===== src/Circuit/Streak.antt =====
-- When a closed circuit opens: exactly when the completions hold a run of failures as long as the
-- threshold, where those that cannot be attributed to the upstream are left out.
use secure_api_gateway.Prelude.{
  ℕ, zero, suc, ◌+◌, ◌<◌, ◌≡◌, ◌↔◌, refl, sym, ap, ◌∙◌, ◌⊎◌, inl, inr, Bool, true, false, none,
  List, [], ◌∷◌, ◌++◌, arith,
}
use secure_api_gateway.Prelude.Lists.{replicate, length, length-append, length-replicate}
use secure_api_gateway.Circuit.{
  Settings, Permit, Circuit, closed, opened, record_success, record_failure, record_neutral,
}
use secure_api_gateway.Circuit.Invariant.{IsValid}
use mathlib.Core.List.{append_assoc, append-nil}

-- How one logical call ends, for the circuit.
pub data Outcome : Type 0 where
  succeeded : Outcome
  failed : ℕ → Outcome
  unattributed : ℕ → Outcome

unfoldable pub complete : Settings → Permit → Circuit → Outcome → Circuit
complete s p c succeeded = (record_success p c).1
complete s p c (failed now) = (record_failure s now p c).1
complete s p c (unattributed now) = (record_neutral now p c).1

unfoldable pub complete_all : Settings → Permit → Circuit → List Outcome → Circuit
complete_all s p c [] = c
complete_all s p c (o ∷ os) = complete_all s p (complete s p c o) os

-- Whether each completion that counts was a failure.
abbrev pub verdicts : List Outcome → List Bool
verdicts [] = []
verdicts (succeeded ∷ os) = false ∷ verdicts os
verdicts (failed now ∷ os) = true ∷ verdicts os
verdicts (unattributed now ∷ os) = verdicts os

-- `k` failures in a row.
abbrev pub HasStreak : ℕ → List Bool → Type 0
HasStreak k bs =
    (before : List Bool) × (after : List Bool) × (bs ≡ before ++ (replicate k true ++ after))

-- A shorter run that a success ends does not begin with `k` failures.
short_run :
    (f k : ℕ) (bs after : List Bool)
    → f < k
    → replicate f true ++ (false ∷ bs) ≡ replicate k true ++ after
    → ⊥
short_run f zero bs after h e = omega arith
short_run zero (suc k) bs after h e = cc
short_run (suc f) (suc k) bs after h e = short_run f k bs after (omega arith) (cc)

streak_past_success :
    (f k : ℕ) (bs before after : List Bool)
    → f < k
    → replicate f true ++ (false ∷ bs) ≡ before ++ (replicate k true ++ after)
    → HasStreak k bs
streak_past_success f k bs [] after h e = absurd (short_run f k bs after h e)
streak_past_success zero k bs (b ∷ before) after h e = (before, after, cc)
streak_past_success (suc f) k bs (b ∷ before) after h e =
    streak_past_success f k bs before after (omega arith) (cc)

-- A run of fewer than `k` failures holds no streak of `k`.
streak_too_short :
    (f k : ℕ) (before after : List Bool)
    → f < k
    → replicate f true ≡ before ++ (replicate k true ++ after)
    → ⊥
streak_too_short f k before after h e = omega (
  arith,
  ap length e,
  length-append before (replicate k true ++ after),
  length-append (replicate k true) after,
  length-replicate k true,
  length-replicate f true,
)

replicate-suc-append :
    (f : ℕ) (bs : List Bool) → replicate f true ++ (true ∷ bs) ≡ replicate (suc f) true ++ bs
replicate-suc-append zero bs = refl
replicate-suc-append (suc f) bs = ap (λ l. true ∷ l) (replicate-suc-append f bs)

-- A closed circuit that has counted `f` failures.
abbrev counting : ℕ → ℕ → Circuit
counting g f = record {
  state = closed;
  consecutive_failures = f;
  opened_at = none;
  half_open_probe_in_flight = false;
  generation = g;
}

-- A permit of a request admitted by a closed circuit of generation `g`.
abbrev pub plain : ℕ → Permit
plain g = record { generation = g; half_open_probe = false }

module _ (s : Settings) (g : ℕ) where
  complete_all-opened :
      (c : Circuit) (os : List Outcome) → g < c.generation → complete_all s (plain g) c os ≡ c
  unfolding complete_all complete record_success record_failure record_neutral
  complete_all-opened c [] h = refl
  complete_all-opened c (succeeded ∷ os) h = ground (arith, complete_all-opened c os)
  complete_all-opened c (failed now ∷ os) h = ground (arith, complete_all-opened c os)
  complete_all-opened c (unattributed now ∷ os) h = ground (arith, complete_all-opened c os)

  -- Either the last of the run trips the circuit, or it goes on counting.
  complete-failed :
      (f now : ℕ)
      → f < s.failure_threshold
      → ((f + 1 ≡ s.failure_threshold)
          × ((complete s (plain g) (counting g f) (failed now)).state ≡ opened)
          × (g < (complete s (plain g) (counting g f) (failed now)).generation))
        ⊎ ((suc f < s.failure_threshold)
            × (complete s (plain g) (counting g f) (failed now) ≡ counting g (suc f)))
  unfolding complete record_failure
  complete-failed f now h = ground arith

  complete-succeeded : (f : ℕ) → complete s (plain g) (counting g f) succeeded ≡ counting g 0
  unfolding complete record_success
  complete-succeeded f = ground arith

  complete-unattributed :
      (f now : ℕ) → complete s (plain g) (counting g f) (unattributed now) ≡ counting g f
  unfolding complete record_neutral
  complete-unattributed f now = ground arith

  opens_iff :
      (f : ℕ) (os : List Outcome)
      → f < s.failure_threshold
      → ((complete_all s (plain g) (counting g f) os).state ≡ opened)
        ↔ HasStreak s.failure_threshold (replicate f true ++ verdicts os)
  unfolding complete_all
  opens_iff f [] h = (
    λ e. cc,
    λ (before, after, e).
        absurd (streak_too_short f s.failure_threshold before after h (sym (append-nil _) ∙ e)),
  )
  opens_iff f (succeeded ∷ os) h =
      let (to, from) = opens_iff 0 os (omega arith) in
      rw (complete-succeeded f, complete_all)
        (
          λ e.
              let (before, after, q) = to e in
              (
                replicate f true ++ (false ∷ before),
                after,
                ap (λ l. replicate f true ++ (false ∷ l)) q
                    ∙ sym (append_assoc (replicate f true) _ _),
              ),
          λ (before, after, e).
              from (streak_past_success f s.failure_threshold (verdicts os) before after h e),
        )
  opens_iff f (failed now ∷ os) h = elim (complete-failed f now h) [
    | inl (last, trips, later) ↦ (
      λ e. (
        [],
        verdicts os,
        replicate-suc-append f (verdicts os)
            ∙ ap (λ n. replicate n true ++ verdicts os) {x = suc f} {y = s.failure_threshold}
                (omega arith),
      ),
      λ e.
          rw
            (
              complete_all-opened (complete s (plain g) (counting g f) (failed now)) os later,
              complete_all,
            )
            trips,
    )
    | inr (fewer, same) ↦
        rw (same, complete_all, replicate-suc-append f (verdicts os)) (opens_iff (suc f) os fewer)
  ]
  opens_iff f (unattributed now ∷ os) h =
      rw (complete-unattributed f now, complete_all) (opens_iff f os h)

-- A valid closed circuit that has counted no failure is opened by the completions of calls that it
-- admitted exactly when, among those that count, there are as many failures in a row as the
-- threshold. A success starts the count again, and a completion not attributed to the upstream
-- neither counts nor starts it again.
pub opens_iff_streak :
    (s : Settings) (c : Circuit) (os : List Outcome)
    → IsValid s c
    → c.state ≡ closed
    → c.consecutive_failures ≡ 0
    → ((complete_all s (plain c.generation) c os).state ≡ opened)
      ↔ HasStreak s.failure_threshold (verdicts os)
opens_iff_streak s c os v h z =
    let e : c ≡ counting c.generation 0 = ground arith in
    rw e (opens_iff s c.generation 0 os (ground arith))
