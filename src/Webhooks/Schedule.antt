-- ===== src/Webhooks/Schedule.antt =====
-- When a failed attempt is tried again.
use native.Mathlib.Nat.{
  mul-div-le, lt-mul-div-succ, mul-le-mul_left, lt_of_mul-lt-mul_right, le_of_mul-le-mul_right,
}
use swift_chain_backend.Common.{ℕ, suc, ◌+◌, ◌-◌, ◌*◌, ◌/◌, ◌^◌, ◌≤◌, ◌<◌, min, ◌≡◌, arith}
use swift_chain_backend.Webhooks.{WebhookSettings, Posting, capped_delay, compute_next_retry}

-- A part of it, from four fifths up to six fifths.
fifths :
    (full r s : ℕ)
    → r < s
    → (4 * full < 5 * ((full * (4 * s + 2 * r)) / (5 * s)) + 5)
      × (5 * ((full * (4 * s + 2 * r)) / (5 * s)) ≤ 6 * full)
fifths full r s below =
    let whole = full * (4 * s + 2 * r) in
    let d = whole / (5 * s) in
    let under : whole < 5 * s * (d + 1) = lt-mul-div-succ whole (omega (arith, below)) in
    let over : 5 * s * d ≤ whole = mul-div-le whole (5 * s) in
    let most : full * (4 * s + 2 * r) ≤ full * (6 * s) =
      mul-le-mul_left full (omega (arith, below)) in
    let least : full * (4 * s) ≤ full * (4 * s + 2 * r) = mul-le-mul_left full (omega arith) in
    (
      lt_of_mul-lt-mul_right s (omega (arith, under, least)),
      le_of_mul-le-mul_right {k = s} (omega (arith, over, most)) (omega (arith, below)),
    )

near :
    (full now r s : ℕ)
    → r < s
    → (now + 4 * full / 5 ≤ now + (full * (4 * s + 2 * r)) / (5 * s))
      × (now + (full * (4 * s + 2 * r)) / (5 * s) ≤ now + 6 * full / 5)
near full now r s below =
    let (low, high) = fifths full r s below in (omega (arith, low), omega (arith, high))

-- The next retry of an attempt comes after the delay that is doubled for each attempt and capped, give
-- or take at most a fifth of it, if the draw of `Math.random()` is below one.
pub compute_next_retry-bounds :
    (c : WebhookSettings) (n : ℕ) (p : Posting)
    → p.random < c.scale
    → let delay = min (c.retry_base_ms * 2 ^ n) c.retry_max_ms in
      (p.now + 4 * delay / 5 ≤ compute_next_retry c (suc n) p)
      × (compute_next_retry c (suc n) p ≤ p.now + 6 * delay / 5)
unfolding compute_next_retry capped_delay
compute_next_retry-bounds c n p below =
    let same : suc n - 1 ≡ n = omega arith in
    rw (compute_next_retry, capped_delay, same)
      (near (min (c.retry_base_ms * 2 ^ n) c.retry_max_ms) p.now p.random c.scale below)
