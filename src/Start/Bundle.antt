-- ===== src/Start/Bundle.antt =====
-- net_bundle_core.c: the start of the bundle.
use simp_dserver.Prelude.{ℕ, zero, suc, Bool, true, false, Option, none, some, if◌then◌else◌}
use simp_dserver.Start.{
  stream, dgram, bundle, tcp_event, udp_event, Call, socket, close, event_base_new,
  event_base_dispatch, event_assign, event_add, Reply, Run, pure, undefined, ◌>>=◌, ◌>>◌,
  is_not_positive, call, checked, and_then,
}
use simp_dserver.Start.Sockets.{sockinit}
use simp_dserver.Start.Threads.{ring_init, lock_init, thread_init, release_thread}

-- A local variable: `none` before it is set.
abbrev pub Local : Type 0
Local = Option Reply

-- The number of a descriptor that was tested to be positive.
unfoldable pub number : Reply → ℕ
number none = 0
number (some n) = n

module _ (answer : Call → Reply) where
  -- `if(fd > 0) close(fd);`: to read a variable that is not set is undefined.
  pub close_open : Local → Run Bool
  close_open none = undefined
  close_open (some none) = pure false
  close_open (some (some zero)) = pure false
  close_open (some (some (suc n))) = do call answer (close (suc n)); pure false

  -- From `out` on.
  unfoldable pub give_up : Local → Local → Run Bool
  unfolding close_open
  give_up tcpfd udpfd = do close_open tcpfd; close_open udpfd

  -- The end of `net_bundle_core_module_inside_init`; what the calls return is not looked at.
  unfoldable pub watch : (tcpfd udpfd : ℕ) → Run Bool
  watch tcpfd udpfd = do
    call answer (event_assign tcp_event tcpfd)
    call answer (event_assign udp_event udpfd)
    call answer (event_add tcp_event)
    call answer (event_add udp_event)
    lock_init answer bundle
    thread_init answer bundle
    pure true

  -- `net_bundle_core_module_inside_init` once both sockets are there, and once the first is.
  unfoldable pub set_up : (port ip : ℕ) → Reply → Reply → Run Bool
  set_up port ip tcpfd udpfd = do
    ready ←
        and_then answer (sockinit answer port ip (number tcpfd) stream)
          (sockinit answer port ip (number udpfd) dgram)
    if ready then watch (number tcpfd) (number udpfd) else give_up (some tcpfd) (some udpfd)

  unfoldable pub open_second : (port ip : ℕ) → Reply → Run Bool
  open_second port ip tcpfd = do
    udpfd ← call answer (socket bundle dgram)
    if is_not_positive udpfd then give_up (some tcpfd) (some udpfd) else set_up port ip tcpfd udpfd

  -- `net_bundle_core_module_inside_init`: the result is true for 0.
  unfoldable pub inside_init : (port ip : ℕ) → Run Bool
  inside_init port ip = do
    tcpfd ← call answer (socket bundle stream)
    if is_not_positive tcpfd then give_up (some tcpfd) none else open_second port ip tcpfd

  -- `net_bundle_core_module_init`
  unfoldable pub bundle_init : (port ip : ℕ) → Run Bool
  unfolding inside_init ring_init
  bundle_init port ip =
      checked answer (event_base_new bundle) is_not_positive
        (and_then answer (inside_init port ip) (ring_init answer bundle))

  -- `net_bundle_core_module_run`, until the event loop ends.
  unfoldable pub bundle_run : Run Bool
  unfolding release_thread
  bundle_run = do release_thread answer bundle; call answer (event_base_dispatch bundle); pure true
