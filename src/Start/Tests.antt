-- ===== src/Start/Tests.antt =====
-- Runs of the start with concrete results of the calls.
use simp_dserver.Prelude.{
  ◌==◌, if◌then◌else◌, ◌≡◌, refl, Bool, false, none, some, List, [], ◌∷◌, ◌++◌,
}
use simp_dserver.Start.{
  stream, dgram, work, bundle, Call, socket, close, get_flags, set_nonblock, set_keepalive,
  set_reuse, bind_address, listen, event_base_new, malloc_ring, mutex_init, cond_init, first_lock,
  thread_create, Reply,
}
use simp_dserver.Start.Threads.{work_init}
use simp_dserver.Start.Sockets.{sockinit}
use simp_dserver.Start.Bundle.{inside_init, open_second, set_up, number, give_up}
use simp_dserver.Start.Order.{all_ok, made, work_attempts, work_init-made}
use simp_dserver.Start.Order.Close.{closes, inside_init-closes}

-- The descriptors are 5 and 6; memory is there; the bind of the second socket fails, and the thread
-- of the work part cannot be made.
abbrev results : Call → Reply
results (socket p stream) = some 5
results (socket p dgram) = some 6
results (malloc_ring p) = some 4096
results (event_base_new p) = some 8192
results (bind_address fd port ip) = if fd == 6 then none else some 0
results (thread_create p) = some 11
results c = some 0

abbrev listening : List Call
listening =
    socket bundle stream
    ∷ socket bundle dgram
    ∷ get_flags 5
    ∷ set_nonblock 5
    ∷ set_keepalive 5
    ∷ set_reuse 5
    ∷ bind_address 5 53 0
    ∷ listen 5
    ∷ get_flags 6
    ∷ set_nonblock 6
    ∷ set_keepalive 6
    ∷ set_reuse 6
    ∷ bind_address 6 53 0
    ∷ close 5
    ∷ close 6
    ∷ []

inside_init_run : inside_init results 53 0 [] ≡ some (false, listening)
unfolding inside_init open_second set_up sockinit number give_up
inside_init_run = refl

work_init_run :
    work_init results []
    ≡ some (
      false,
      malloc_ring work
          ∷ mutex_init work
          ∷ cond_init work
          ∷ first_lock work
          ∷ thread_create work
          ∷ [],
    )
unfolding work_init
work_init_run = refl

work_init-made_example :
    work_init results (listen 5 ∷ [])
    ≡ some (
      all_ok results (work_attempts results),
      (listen 5 ∷ []) ++ made results (work_attempts results),
    )
work_init-made_example = work_init-made results (listen 5 ∷ [])

inside_init-closes_example :
    (ok : Bool) × (log' : List Call) × (inside_init results 53 0 [] ≡ some (ok, log'))
    × (ok ≡ false
        → (calls : List Call) × (log'
            ≡ ([] ++ calls) ++ closes results 4 (results (socket bundle dgram))))
inside_init-closes_example = inside_init-closes results 53 0 4 [] refl
