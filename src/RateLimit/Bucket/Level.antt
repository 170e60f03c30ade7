-- ===== src/RateLimit/Bucket/Level.antt =====
-- The abstract bucket: what is in it at a time, and what a request does to it.
use secure_api_gateway.Prelude.{
  ℕ, suc, ◌+◌, ◌-◌, ◌*◌, ◌/◌, ◌≤◌, ◌<◌, ◌≡◌, min, false, Option, none, some, leb, if◌then◌else◌,
  ceil_div, arith, leb→le, Bool-cases, inl, inr, ap, ◌∙◌,
}
use native.Mathlib.Nat.{
  mul-le-mul_right, mul_assoc, mul_comm, mul_right_comm, mul_left_comm, mul-suc, div-add-mod,
  mod-lt,
}
use secure_api_gateway.RateLimit.Bucket.{Policy, unit, state_ttl_seconds}

-- The units that were left, and when.
pub record Bucket : Type 0 where
  pub tokens : ℕ
  pub last_refill : ℕ

-- What the bucket of a key holds at a time; a bucket that is not stored is full.
unfoldable pub level : ℕ → ℕ → ℕ → Option Bucket → ℕ
level full refill now none = full
level full refill now (some b) = min full (min full b.tokens + (now - b.last_refill) * refill)

-- What a request leaves of it.
unfoldable pub left : ℕ → ℕ → ℕ → ℕ → Option Bucket → ℕ
left full refill requested now b =
    let here = level full refill now b in if leb requested here then here - requested else here

-- Rounding up.
pub ceil_div-reaches : (a b : ℕ) → 0 < b → a ≤ ceil_div a b * b
unfolding ceil_div
ceil_div-reaches a b h =
    let f = div-add-mod (a + b - 1) b in
    let m = mod-lt (a + b - 1) h in let c = mul_comm b ((a + b - 1) / b) in omega (arith, f, m, c)

pub ceil_div-least : (a b : ℕ) → 0 < b → ceil_div a b * b < a + b
unfolding ceil_div
ceil_div-least a b h =
    let f = div-add-mod (a + b - 1) b in let c = mul_comm b ((a + b - 1) / b) in omega (arith, f, c)

-- A bucket is full again after half of the lifetime of its key.
pub level-refilled :
    (p : Policy) (b : Bucket) (now : ℕ)
    → 0 < p.numerator
    → state_ttl_seconds p * 1000 ≤ 2 * (now - b.last_refill)
    → level (p.capacity * unit p) p.numerator now (some b) ≡ p.capacity * unit p
unfolding level state_ttl_seconds
level-refilled p b now h late =
    let ttl = ceil_div (2 * (p.capacity * p.denominator)) p.numerator in
    let reached = ceil_div-reaches (2 * (p.capacity * p.denominator)) p.numerator h in
    let scaled : ttl * 1000 * p.numerator ≤ 2 * (now - b.last_refill) * p.numerator =
      mul-le-mul_right p.numerator (omega (arith, late)) in
    let turned = mul_right_comm ttl 1000 p.numerator in
    let doubled : 2 * (now - b.last_refill) * p.numerator
        ≡ 2 * ((now - b.last_refill) * p.numerator) =
      mul_assoc 2 (now - b.last_refill) p.numerator in
    let moved = mul_left_comm p.capacity 1000 p.denominator in
    omega (arith, reached, scaled, turned, doubled, moved)

-- A bucket is full again before its key expires, so that an expired key tells nothing else than a
-- stored one.
pub level-expired :
    (p : Policy) (b : Bucket) (now : ℕ)
    → 0 < p.numerator
    → state_ttl_seconds p * 1000 ≤ now - b.last_refill
    → level (p.capacity * unit p) p.numerator now (some b)
      ≡ level (p.capacity * unit p) p.numerator now none
unfolding level
level-expired p b now h late = level-refilled p b now h (omega (arith, late))

module _ (full refill requested : ℕ) where
  pub level_bounded : (now : ℕ) (b : Option Bucket) → level full refill now b ≤ full
  unfolding level
  level_bounded now none = omega arith
  level_bounded now (some b) = omega arith

  left-short :
      (now : ℕ) (b : Option Bucket)
      → leb requested (level full refill now b) ≡ false
      → left full refill requested now b ≡ level full refill now b
  unfolding left
  left-short now b short = ground (arith, short)

  -- What is missing is there after exactly the delay.
  missing_exact :
      (here elapsed : ℕ)
      → 0 < refill
      → here < requested
      → requested ≤ full
      → leb requested (min full (min full here + elapsed * refill))
        ≡ leb (ceil_div (requested - here) refill) elapsed
  missing_exact here elapsed h short fits =
      let delay = ceil_div (requested - here) refill in
      let reaches = ceil_div-reaches (requested - here) refill h in
      let least = ceil_div-least (requested - here) refill h in
      elim (Bool-cases (leb delay elapsed)) [
        | inl e ↦
            let grown = mul-le-mul_right refill (leb→le delay elapsed e) in
            ground (arith, e, grown, reaches, short, fits)
        | inr e ↦
            let before : suc elapsed ≤ delay = ground (arith, e) in
            let grown = mul-le-mul_right refill before in
            let step : suc elapsed * refill ≡ elapsed * refill + refill =
              mul_comm (suc elapsed) refill
              ∙ mul-suc refill elapsed
              ∙ ap (λ x. x + refill) (mul_comm refill elapsed) in
            ground (arith, e, grown, least, short, fits, step)
      ]

  -- What a request leaves that is refused is enough for it once the delay that it is told has passed,
  -- and not a millisecond earlier.
  pub refilled_exact :
      (now later : ℕ) (b : Option Bucket)
      → 0 < refill
      → requested ≤ full
      → leb requested (level full refill now b) ≡ false
      → let after : Bucket = record {
        tokens = left full refill requested now b;
        last_refill = now;
      } in
        let delay = ceil_div (requested - level full refill now b) refill in
        now ≤ later → leb requested (level full refill later (some after)) ≡ leb (now + delay) later
  unfolding level
  refilled_exact now later b h fits short onward =
      let here = level full refill now b in
      let kept = left-short now b short in
      let exact = missing_exact here (later - now) h (ground (arith, short)) fits in
      rw kept (ground (arith, exact, onward))
