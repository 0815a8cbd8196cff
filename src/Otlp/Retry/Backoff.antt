-- ===== src/Otlp/Retry/Backoff.antt =====
-- The backoff in closed form.
use antwatcher.Prelude.{ℕ, zero, suc, ◌*◌, ◌≤◌, ◌<◌, ◌≡◌, arith, leb, if◌then◌else◌}
use antwatcher.Otlp.Retry.{minute, doubled, backoff_delay}

-- `d` times two to the `k`, without the cap.
abbrev pub scaled : ℕ → ℕ → ℕ
scaled zero d = d
scaled (suc k) d = scaled k (d * 2)

scaled-le : (k d : ℕ) → d ≤ scaled k d
scaled-le zero d = omega arith
scaled-le (suc k) d = omega (arith, scaled-le k (d * 2))

doubled_lem :
    (k d : ℕ) → d ≤ minute → doubled k d ≡ (if leb (scaled k d) minute then scaled k d else minute)
unfolding doubled
doubled_lem zero d h = ground arith
doubled_lem (suc k) d h = ground (arith, doubled_lem k (d * 2), scaled-le k (d * 2))

-- With a base of at most a minute, the delay before retry `n` (from 1 on) is the base doubled n - 1 times, or a
-- minute where that is more.
pub backoff_delay_lem :
    (base k : ℕ)
    → 0 < base
    → base ≤ minute
    → backoff_delay base (suc k) ≡ (if leb (scaled k base) minute then scaled k base else minute)
unfolding backoff_delay
backoff_delay_lem base k p h = ground (arith, doubled_lem k base h)
