-- ===== src/Start/Threads.antt =====
-- net_work.c, net_forward.c and net_bundle_core.c: rings, locks and threads of the parts.
use simp_dserver.Prelude.{Bool, true}
use simp_dserver.Start.{
  Part, work, Call, malloc_ring, mutex_init, cond_init, first_lock, thread_create, mutex_lock,
  cond_signal, mutex_unlock, Reply, Run, pure, ◌>>◌, is_nonzero, is_not_positive, call, checked,
  and_then,
}

module _ (answer : Call → Reply) where
  -- `net_work_module_inside_ring_init`: NULL from `create` is -1.
  unfoldable pub ring_init : Part → Run Bool
  ring_init p = checked answer (malloc_ring p) is_not_positive (pure true)

  -- `net_work_module_inside_mutex_init`, and the same in the other two parts.
  unfoldable pub lock_init : Part → Run Bool
  lock_init p = checked answer (mutex_init p) is_nonzero (
      checked answer (cond_init p) is_nonzero
        (checked answer (first_lock p) is_nonzero (pure true)))

  -- `net_work_module_inside_loop_init`
  unfoldable pub thread_init : Part → Run Bool
  thread_init p = checked answer (thread_create p) is_nonzero (pure true)

  -- `net_work_module_init`
  unfoldable pub work_init : Run Bool
  unfolding ring_init lock_init thread_init
  work_init = and_then answer (ring_init work) (and_then answer (lock_init work) (thread_init work))

  -- `net_work_module_run`
  unfoldable pub release_thread : Part → Run Bool
  release_thread p = do
    call answer (mutex_lock p)
    call answer (cond_signal p)
    call answer (mutex_unlock p)
    pure true
