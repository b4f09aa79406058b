-- ===== src/Start.antt =====
-- Starting the server: net_bundle/net_bundle_core.c, net_work/net_work.c, net_forward/net_forward.c
-- and net_main/net_main.c, as sequences of calls of the system. Every call is made at most once with
-- its arguments until the server runs, so that its result is a function of the call: `answer`.
pub mod Sockets
pub mod Threads
pub mod Bundle
pub mod Forward
pub mod Main
pub mod Order
mod Tests
use simp_dserver.Prelude.{
  ℕ, zero, suc, Bool, true, false, not, Option, none, some, List, [], ◌∷◌, ◌++◌, ◌==◌,
  if◌then◌else◌,
}

pub data Family : Type 0 where
  stream dgram : Family

-- The parts of the server that run a thread.
pub data Part : Type 0 where
  work forward bundle : Part

pub data Event : Type 0 where
  tcp_event udp_event forward_event : Event

-- What is called outside the repository.
pub data Call : Type 0 where
  socket : Part → Family → Call
  get_flags set_nonblock set_keepalive set_reuse : (fd : ℕ) → Call
  bind_address : (fd port ip : ℕ) → Call
  listen close : (fd : ℕ) → Call
  event_base_new event_base_dispatch : Part → Call
  event_assign : Event → (fd : ℕ) → Call
  event_add : Event → Call
  malloc_ring : Part → Call
  mutex_init cond_init first_lock thread_create : Part → Call
  mutex_lock cond_signal mutex_unlock : Part → Call
  daemon : Call

-- A result of a call: none is -1, and 0 is NULL for a pointer.
abbrev pub Reply : Type 0
Reply = Option ℕ

-- `none` is undefined behaviour; the log has the calls made so far.
abbrev pub Run : Type 0 → Type 0
Run A = List Call → Option (A × List Call)

abbrev pub pure : {A : Type 0} → A → Run A
pure a log = some (a, log)

abbrev pub undefined : {A : Type 0} → Run A
undefined log = none

infixl 5 ◌>>=◌ ◌>>◌
abbrev pub ◌>>=◌ : {A B : Type 0} → Run A → (A → Run B) → Run B
◌>>=◌ c k log = elim (c log) [ none ↦ none | some (a, log') ↦ k a log' ]

abbrev pub ◌>>◌ : {A B : Type 0} → Run A → Run B → Run B
◌>>◌ c d = c >>= λ _. d

abbrev pub is_minus_one : Reply → Bool
is_minus_one none = true
is_minus_one (some n) = false

-- `if (call)`
abbrev pub is_nonzero : Reply → Bool
is_nonzero none = true
is_nonzero (some zero) = false
is_nonzero (some (suc n)) = true

-- `fd <= 0`, and a pointer that is NULL.
abbrev pub is_not_positive : Reply → Bool
is_not_positive none = true
is_not_positive (some zero) = true
is_not_positive (some (suc n)) = false

module _ (answer : Call → Reply) where
  abbrev pub call : Call → Run Reply
  call c log = some (answer c, log ++ (c ∷ []))

  -- A test of a call's result that leads to `ret = -1`; else the rest.
  abbrev pub checked : Call → (Reply → Bool) → Run Bool → Run Bool
  checked c fails rest = do r ← call c; if fails r then pure false else rest

  -- `a || b`: the second runs where the first succeeds.
  abbrev pub and_then : Run Bool → Run Bool → Run Bool
  and_then a b = do ok ← a; if ok then b else pure false
