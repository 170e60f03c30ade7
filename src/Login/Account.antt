-- ===== src/Login/Account.antt =====
-- The abstract account: how many failures are counted, and until when it is locked (0 is not).
use secure_api_gateway.Prelude.{ℕ, ◌+◌, ltb, leb, if◌then◌else◌}

pub record Account : Type 0 where
  pub failures : ℕ
  pub locked_until : ℕ

abbrev pub clear : Account
clear = record { failures = 0; locked_until = 0 }

-- The account after a failed login.
unfoldable pub fail : ℕ → ℕ → ℕ → Account → Account
fail threshold now lockout a =
    if ltb now a.locked_until
    then a
    else (let n = if ltb 0 a.locked_until then 1 else a.failures + 1 in
        record { failures = n; locked_until = if leb threshold n then now + lockout else 0 })

-- The account after its state was asked for.
unfoldable pub settle : ℕ → Account → Account
settle now a = if ltb now a.locked_until then a else if ltb 0 a.locked_until then clear else a
