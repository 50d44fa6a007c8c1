-- ===== src/Renew/Threshold.antt =====
-- When a certificate is renewed.
use kube_csr.Base.{◌≡◌, ◌↔◌, true, arith, ok}
use kube_csr.Base.Int.{◌-ℤ◌, ◌+ℤ◌, ◌≤ℤ◌, IsInt64, wrap64-eq_of_IsInt64, -ℤ_parts, +ℤ_parts}
use kube_csr.Env.{Env, World, Time, Duration}
use kube_csr.Renew.{sub_time, is_due}

module _ (E : Env) where
  -- A difference that fits a duration is not clamped.
  sub_time-exact : (t u : Time) → IsInt64 (t -ℤ u) → sub_time t u ≡ t -ℤ u
  unfolding sub_time
  sub_time-exact t u h = ground arith

  -- A certificate is due exactly when no more than the threshold is left of it, where the durations
  -- do not overflow.
  pub is_due_iff :
      (not_after : Time) (threshold : Duration) (w : World E)
      → let now = (E.now w.host).0 in
        IsInt64 (not_after -ℤ now)
        → IsInt64 ((not_after -ℤ now) -ℤ threshold)
        → (is_due E not_after threshold w).0 ≡ ok true ↔ not_after ≤ℤ now +ℤ threshold
  unfolding is_due
  is_due_iff not_after threshold w h k =
      let left = not_after -ℤ (E.now w.host).0 in
      rw (sub_time-exact not_after (E.now w.host).0 h, wrap64-eq_of_IsInt64 _ k)
        (ground (
          arith,
          -ℤ_parts left threshold,
          -ℤ_parts not_after (E.now w.host).0,
          +ℤ_parts (E.now w.host).0 threshold,
        ))
