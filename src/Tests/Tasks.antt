-- ===== src/Tests/Tasks.antt =====
-- The properties of tasks at concrete ones.
use devops_platform.Base.{sub_ℕ, ◌≡◌, refl, some, nat_eq}
use devops_platform.Task.State.{running, failed}
use devops_platform.Task.Defs.{Task, zero_status, update_status, duration}
use devops_platform.Task.Updates.{duration_rerun}
use devops_platform.Tests.Fixtures.{task_in}

abbrev failed_early : Task
failed_early = record (task_in failed) {
  status = record zero_status { state = failed; finish_time = some 4 };
}

duration_rerun_example : duration 100 (update_status 20 running "c1" "" failed_early) ≡ sub_ℕ 4 20
duration_rerun_example = duration_rerun failed_early 20 100 4 "c1" "" refl refl
