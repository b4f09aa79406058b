-- ===== src/Start/Forward.antt =====
-- net_forward.c: the start of the forwarding part.
use simp_dserver.Prelude.{Bool, true, false, if◌then◌else◌}
use simp_dserver.Start.{
  dgram, forward, forward_event, Call, socket, close, event_base_new, event_assign, malloc_ring,
  Reply, Run, pure, ◌>>=◌, ◌>>◌, is_not_positive, call, checked, and_then,
}
use simp_dserver.Start.Bundle.{number}
use simp_dserver.Start.Threads.{lock_init, thread_init}

-- `unset` says whether the variable `ret`, which `net_forward_module_inside_ring_init` returns
-- without a value once the ring is there, happens to be 0.
module _ (answer : Call → Reply) (unset : Bool) where
  -- `net_forward_module_inside_sock_init`
  pub forward_sock_init : Run Bool
  unfolding number
  forward_sock_init = do
    fd ← call answer (socket forward dgram)
    if is_not_positive fd then pure false else do
      base ← call answer (event_base_new forward)
      if is_not_positive base
          then (do call answer (close (number fd)); pure false)
          else (do call answer (event_assign forward_event (number fd)); pure true)

  -- `net_forward_module_inside_ring_init`
  pub forward_ring_init : Run Bool
  forward_ring_init = checked answer (malloc_ring forward) is_not_positive (pure unset)

  -- `net_forward_module_init`; the lists' initialisation cannot fail (`Forward.list_init`).
  unfoldable pub forward_init : Run Bool
  unfolding forward_sock_init forward_ring_init lock_init thread_init
  forward_init = and_then answer forward_sock_init (
      and_then answer forward_ring_init
        (and_then answer (lock_init answer forward) (thread_init answer forward)))
