-- ===== src/Values/Validity/Versions.antt =====
-- validate.ts: the codes of versions.
use matterbridge.Base.{ℕ, ◌≤◌, ◌<◌, ◌≡◌, ◌↔◌, ◌⊎◌, some, arith}
use matterbridge.Values.Validity.{version_code}

-- One version is before another: at the first of the three numbers that differ.
abbrev pub Before : ℕ × ℕ × ℕ → ℕ × ℕ × ℕ → Type 0
Before v w = (v.0 < w.0) ⊎ ((v.0 ≡ w.0) × (v.1 < w.1)) ⊎ ((v.0 ≡ w.0) × (v.1 ≡ w.1) × (v.2 < w.2))

-- Where two versions have a code, the codes are in the order of the versions, and none is above 999999.
pub version_code-Before :
    (v w : ℕ × ℕ × ℕ) (m n : ℕ)
    → version_code v ≡ some m
    → version_code w ≡ some n
    → ((m < n) ↔ Before v w) × (m ≤ 999999)
unfolding version_code
version_code-Before (a, b, c) (d, e, f) m n h k = ground (arith, h, k)
