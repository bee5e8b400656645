-- ===== src/Settings/Bounds.antt =====
-- cmd/server/action.go and util.go: bounds of the numbers that a job's settings turn into.
use chowkidar.Prelude.{
  ℕ, ◌*◌, ◌≤◌, ◌<◌, ◌≡◌, true, some, ltb_ℤ, ℤ, pos, negsuc, scale, scale_exact, arith,
}
use chowkidar.Model.{second, Job}
use chowkidar.Settings.{at_least_five, scan_interval, retries_in, effective_retry_count}

at_least_five-ge : (z : ℤ) → 5 * second ≤ at_least_five z
at_least_five-ge (pos n) = ground arith
at_least_five-ge (negsuc n) = ground arith

-- The scan interval of a job is at least 5 seconds, whatever number the job gives: zero, negative,
-- or so large that the multiplication overflows.
pub scan_interval-ge : (j : Job) → 5 * second ≤ scan_interval j
unfolding scan_interval
scan_interval-ge j = at_least_five-ge (scale j.monitor_interval_seconds second)

-- A job that gives at least 5 seconds, without overflow, has exactly that interval.
pub scan_interval_exact :
    (j : Job) (n : ℕ)
    → j.monitor_interval_seconds ≡ pos n
    → 5 ≤ n
    → n * second < 9223372036854775808
    → scan_interval j ≡ n * second
unfolding scan_interval
scan_interval_exact j n e h k = rw e (rw (scale_exact n second k) (ground arith))

retries_in-ge : (z : ℤ) (i : ℕ) → 1 ≤ retries_in z i
retries_in-ge (pos n) i = omega arith
retries_in-ge (negsuc n) i = omega arith

-- A job with a longest monitoring duration has a retry limit of at least 1.
pub effective_retry_count-ge :
    (j : Job)
    → ltb_ℤ (pos 0) j.max_monitoring_duration_minutes ≡ true
    → 1 ≤ effective_retry_count (some j)
unfolding effective_retry_count
effective_retry_count-ge j h = rw h (retries_in-ge _ _)
