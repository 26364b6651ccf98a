-- ===== src/Common/Outcome.antt =====
-- How a run of code ends that may panic.

-- It ended, the kernel panicked, or the fuel ended first.
pub data Run (A : Type 0) : Type 0 where
  done : A → Run A
  panicked : Run A
  running : Run A
