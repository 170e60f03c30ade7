-- ===== src/Redis.antt =====
-- What the login protection uses of Redis: hashes of numbers with an expiry. Redis is not part of
-- the repository, so it is an interface whose laws are the documented behaviour of the commands. A
-- number is stored by `tostring` and read back by `tonumber`, which is exact below 10 ^ 14.
pub mod Memory
use secure_api_gateway.Prelude.{ℕ, ◌<◌, ◌≡◌, Bool, ◌&&◌, Option, none, some, String, if◌then◌else◌}
use text.Mathlib.Text.{◌==◌}

pub record Redis : Type 1 where
  pub Store : Type 0
  pub hget : Store → String → String → Option ℕ
  pub hset : Store → String → String → ℕ → Store
  pub hdel : Store → String → String → Store
  -- DEL, with the number of keys that it removed
  pub del : Store → String → ℕ × Store
  pub pexpire : Store → String → ℕ → Store
  pub ttl : Store → String → Option ℕ
  -- the store after so many milliseconds
  pub wait : ℕ → Store → Store
  pub hget-hset :
      (s : Store) (k j f g : String) (v : ℕ)
      → hget (hset s k f v) j g ≡ (if k == j && f == g then some v else hget s j g)
  pub hget-hdel :
      (s : Store) (k j f g : String)
      → hget (hdel s k f) j g ≡ (if k == j && f == g then none else hget s j g)
  pub hget-del :
      (s : Store) (k j g : String) → hget (del s k).1 j g ≡ (if k == j then none else hget s j g)
  pub hget-pexpire :
      (s : Store) (k j g : String) (n : ℕ) → 0 < n → hget (pexpire s k n) j g ≡ hget s j g
  pub ttl-pexpire :
      (s : Store) (k f : String) (n v : ℕ) → hget s k f ≡ some v → ttl (pexpire s k n) k ≡ some n
  pub hget-wait_within :
      (s : Store) (k g : String) (t d : ℕ)
      → ttl s k ≡ some t
      → d < t
      → hget (wait d s) k g ≡ hget s k g
  pub hget-wait_past :
      (s : Store) (k g : String) (t d : ℕ) → ttl s k ≡ some t → t < d → hget (wait d s) k g ≡ none
  pub hget-wait_none :
      (s : Store) (k g : String) (d : ℕ) → hget s k g ≡ none → hget (wait d s) k g ≡ none
  pub hget-wait_some :
      (s : Store) (k g : String) (d v : ℕ) → hget (wait d s) k g ≡ some v → hget s k g ≡ some v
