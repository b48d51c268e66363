-- ===== src/Tasks/Faults.antt =====
-- Where the scheduler does what its lists do not allow.
use demoscene.Prelude.{◌≡◌, arith, count}
use demoscene.Tasks.{Sched}
use demoscene.Tasks.Owners.{IsValid}

-- The running task is on no list, so `TaskWait`, which removes it from the ready list, removes an
-- element that is not there.
pub running_absent : (s : Sched) → IsValid s → count s.current s.ready_list ≡ 0
running_absent s v = ground (arith, v.queues.ready_once s.current)
