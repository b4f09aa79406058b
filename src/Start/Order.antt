-- ===== src/Start/Order.antt =====
-- The start of the work part and of the listening sockets: against the list of the calls in order.
pub mod Close
use simp_dserver.Prelude.{
  ℕ, ◌≡◌, refl, sym, ap, ◌∙◌, ◌⊎◌, inl, inr, arith, Bool, true, false, not, ◌&&◌, Option, none,
  some, List, [], ◌∷◌, ◌++◌, append_assoc, append-nil, ◌==◌, if◌then◌else◌, Bool-cases,
}
use simp_dserver.Start.{
  Family, stream, dgram, Part, work, Call, get_flags, set_nonblock, set_keepalive, set_reuse,
  bind_address, listen, malloc_ring, mutex_init, cond_init, first_lock, thread_create, Reply, Run,
  is_minus_one, is_nonzero, is_not_positive, ◌>>=◌, checked, and_then,
}
use simp_dserver.Start.Sockets.{sockinit, listen_stream}
use simp_dserver.Start.Threads.{work_init, ring_init, lock_init, thread_init}

-- A call, with the test of its result that means failure.
pub record Attempt : Type 0 where
  pub which : Call
  pub fails : Reply → Bool

abbrev pub attempt : Call → (Reply → Bool) → Attempt
attempt c fails = record { which = c; fails = fails }

module _ (answer : Call → Reply) where
  -- Whether all succeed, and the calls that are made: those up to the first that fails.
  pub all_ok : List Attempt → Bool
  all_ok [] = true
  all_ok (a ∷ as') = if a.fails (answer a.which) then false else all_ok as'

  pub made : List Attempt → List Call
  made [] = []
  made (a ∷ as') = a.which ∷ (if a.fails (answer a.which) then [] else made as')

  -- A run that makes the calls in order until one fails.
  abbrev pub Follows : Run Bool → List Attempt → Type 0
  Follows run attempts = (log : List Call) → run log ≡ some (all_ok attempts, log ++ made attempts)

  pub checked-Follows :
      (c : Call) (fails : Reply → Bool) (rest : Run Bool) (attempts : List Attempt)
      → Follows rest attempts
      → Follows (checked answer c fails rest) (attempt c fails ∷ attempts)
  unfolding all_ok made
  checked-Follows c fails rest attempts follows log = elim (Bool-cases (fails (answer c))) [
    | inl failed ↦ rw failed refl
    | inr fine ↦ rw fine (
        follows (log ++ (c ∷ []))
        ∙ ap (λ l. some (all_ok attempts, l)) (append_assoc log (c ∷ []) (made attempts)))
  ]

  pub end-Follows : Follows (λ log. some (true, log)) []
  unfolding all_ok made
  end-Follows log = ap (λ l. some (true, l)) (sym (append-nil log))

  append-made :
      (first second : List Attempt)
      → (all_ok (first ++ second) ≡ (if all_ok first then all_ok second else false))
        × (made (first ++ second) ≡ made first ++ (if all_ok first then made second else []))
  unfolding all_ok made
  append-made [] second = (refl, refl)
  append-made (a ∷ rest) second =
      let (ok, calls) = append-made rest second in
      elim (Bool-cases (a.fails (answer a.which))) [
        | inl failed ↦ rw failed (refl, refl)
        | inr fine ↦ rw fine (ok, ap (λ l. a.which ∷ l) calls)
      ]

  pub and_then-Follows :
      (a b : Run Bool) (first second : List Attempt)
      → Follows a first
      → Follows b second
      → Follows (and_then answer a b) (first ++ second)
  and_then-Follows a b first second fa fb log =
      let (ok, calls) = append-made first second in
      elim (Bool-cases (all_ok first)) [
        | inl fine ↦
            rw (and_then, ◌>>=◌, fa log, ok, calls, fine)
              (fb (log ++ made first)
                ∙ ap (λ l. some (all_ok second, l)) (append_assoc log (made first) (made second)))
        | inr failed ↦ rw (and_then, ◌>>=◌, fa log, ok, calls, failed, append-nil) refl
      ]

  -- The calls of the start of the work part.
  abbrev pub work_attempts : List Attempt
  work_attempts =
      (attempt (malloc_ring work) is_not_positive ∷ [])
      ++ ((attempt (mutex_init work) is_nonzero
            ∷ attempt (cond_init work) is_nonzero
            ∷ attempt (first_lock work) is_nonzero
            ∷ [])
          ++ (attempt (thread_create work) is_nonzero ∷ []))

  -- The start of the work part makes its calls in this order up to the first that fails: memory for
  -- the ring, the mutex, the condition variable, the first locking, the thread. It succeeds exactly
  -- where all of them do.
  pub work_init-made :
      (log : List Call)
      → work_init answer log ≡ some (all_ok work_attempts, log ++ made work_attempts)
  unfolding work_init
  work_init-made =
      and_then-Follows _ _ (attempt (malloc_ring work) is_not_positive ∷ []) _
        (checked-Follows _ _ _ [] end-Follows)
        (and_then-Follows _ _
          (attempt (mutex_init work) is_nonzero
            ∷ attempt (cond_init work) is_nonzero
            ∷ attempt (first_lock work) is_nonzero
            ∷ [])
          _
          (checked-Follows _ _ _ _ (checked-Follows _ _ _ _ (checked-Follows _ _ _ [] end-Follows)))
          (checked-Follows _ _ _ [] end-Follows))
