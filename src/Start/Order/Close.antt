-- ===== src/Start/Order/Close.antt =====
-- net_bundle_core.c, `net_bundle_core_module_inside_init`: what it leaves behind when it fails.
use simp_dserver.Prelude.{
  ℕ, zero, suc, ◌≡◌, refl, ap, ◌∙◌, inl, inr, arith, Bool, true, false, none, some, List, [], ◌∷◌,
  ◌++◌, append_assoc, Bool-cases,
}
use simp_dserver.Start.{
  Family, stream, dgram, bundle, Call, socket, close, get_flags, set_nonblock, set_keepalive,
  set_reuse, bind_address, listen, tcp_event, udp_event, event_assign, event_add, mutex_init,
  cond_init, first_lock, thread_create, Reply, ◌>>=◌, ◌>>◌, is_minus_one, is_nonzero,
  is_not_positive,
}
use simp_dserver.Start.Sockets.{sockinit, listen_stream}
use simp_dserver.Start.Threads.{lock_init, thread_init}
use simp_dserver.Start.Bundle.{inside_init, open_second, set_up, number, watch, give_up}
use simp_dserver.Start.Order.{
  Attempt, attempt, all_ok, made, Follows, checked-Follows, end-Follows, and_then-Follows,
}

abbrev never : Reply → Bool
never r = false

module _ (answer : Call → Reply) where
  -- The calls on a listening socket; `listen` is not tested.
  abbrev pub listen_attempts : ℕ → Family → List Attempt
  listen_attempts fd stream = attempt (listen fd) never ∷ []
  listen_attempts fd dgram = []

  abbrev pub socket_attempts : (port ip fd : ℕ) → Family → List Attempt
  socket_attempts port ip fd family =
      attempt (get_flags fd) is_minus_one
      ∷ attempt (set_nonblock fd) is_minus_one
      ∷ attempt (set_keepalive fd) is_nonzero
      ∷ attempt (set_reuse fd) is_nonzero
      ∷ attempt (bind_address fd port ip) is_nonzero
      ∷ listen_attempts fd family

  listen_stream-Follows :
      (fd : ℕ) (family : Family)
      → Follows answer (listen_stream answer fd family) (listen_attempts fd family)
  unfolding listen_stream all_ok made
  listen_stream-Follows fd stream log = refl
  listen_stream-Follows fd dgram log = end-Follows answer log

  -- A listening socket is set up by these calls in order, up to the first that fails.
  pub sockinit-made :
      (port ip fd : ℕ) (family : Family)
      → Follows answer (sockinit answer port ip fd family) (socket_attempts port ip fd family)
  unfolding sockinit
  sockinit-made port ip fd family = checked-Follows answer _ _ _ _ (
      checked-Follows answer _ _ _ _ (
        checked-Follows answer _ _ _ _ (
          checked-Follows answer _ _ _ _
            (checked-Follows answer _ _ _ _ (listen_stream-Follows fd family)))))

  -- The descriptors to close: that of the first socket, and that of the second where it is open.
  abbrev pub closes : ℕ → Reply → List Call
  closes t none = close (suc t) ∷ []
  closes t (some zero) = close (suc t) ∷ []
  closes t (some (suc u)) = close (suc t) ∷ close (suc u) ∷ []

  give_up-closes :
      (t : ℕ) (udp : Reply) (log : List Call)
      → give_up answer (some (some (suc t))) (some udp) log ≡ some (false, log ++ closes t udp)
  unfolding give_up
  give_up-closes t none log = refl
  give_up-closes t (some zero) log = refl
  give_up-closes t (some (suc u)) log = ap (λ l. some (false, l)) (append_assoc log _ _)

  give_up-undefined :
      (tcp : Reply) (log : List Call)
      → is_not_positive tcp ≡ true
      → give_up answer (some tcp) none log ≡ none
  unfolding give_up
  give_up-undefined none log bad = refl
  give_up-undefined (some zero) log bad = refl
  give_up-undefined (some (suc t)) log bad = absurd (ground arith)

  lock_attempts : List Attempt
  lock_attempts =
      attempt (mutex_init bundle) is_nonzero
      ∷ attempt (cond_init bundle) is_nonzero
      ∷ attempt (first_lock bundle) is_nonzero
      ∷ []

  lock_init-Follows : Follows answer (lock_init answer bundle) lock_attempts
  unfolding lock_init lock_attempts
  lock_init-Follows =
      checked-Follows answer _ _ _ _
        (checked-Follows answer _ _ _ _ (checked-Follows answer _ _ _ [] (end-Follows answer)))

  thread_init-Follows :
      Follows answer (thread_init answer bundle) (attempt (thread_create bundle) is_nonzero ∷ [])
  unfolding thread_init
  thread_init-Follows = checked-Follows answer _ _ _ [] (end-Follows answer)

  watch-some :
      (t u : ℕ) (log : List Call) → (log' : List Call) × (watch answer t u log ≡ some (true, log'))
  unfolding watch
  watch-some t u log =
      let watched =
        (((log ++ (event_assign tcp_event t ∷ [])) ++ (event_assign udp_event u ∷ []))
          ++ (event_add tcp_event ∷ []))
        ++ (event_add udp_event ∷ []) in
      let locked = watched ++ made answer lock_attempts in
      (
        locked ++ made answer (attempt (thread_create bundle) is_nonzero ∷ []),
        rw (◌>>=◌, ◌>>◌, lock_init-Follows watched, thread_init-Follows locked) refl,
      )

  positive : (r : Reply) → is_not_positive r ≡ false → (u : ℕ) × (r ≡ some (suc u))
  positive none h = absurd (ground arith)
  positive (some zero) h = absurd (ground arith)
  positive (some (suc u)) h = (u, refl)

  set_up-closes :
      (port ip t u : ℕ) (log : List Call)
      → (ok : Bool) × (log' : List Call) × (set_up answer port ip (some (suc t)) (some (suc u)) log
          ≡ some (ok, log'))
        × (ok ≡ false → (calls : List Call) × (log' ≡ (log ++ calls) ++ closes t (some (suc u))))
  unfolding set_up number
  set_up-closes port ip t u log =
      let attempts =
        socket_attempts port ip (suc t) stream ++ socket_attempts port ip (suc u) dgram in
      let both =
        and_then-Follows answer _ _ _ _ (sockinit-made port ip (suc t) stream)
          (sockinit-made port ip (suc u) dgram) log in
      let (log', watching) = watch-some (suc t) (suc u) (log ++ made answer attempts) in
      elim (Bool-cases (all_ok answer attempts)) [
        | inl fine ↦ (true, log', rw (◌>>=◌, both, fine) watching, λ e. absurd (ground arith))
        | inr failed ↦ (
          false,
          (log ++ made answer attempts) ++ closes t (some (suc u)),
          rw (◌>>=◌, both, failed) (give_up-closes t (some (suc u)) (log ++ made answer attempts)),
          λ _. (made answer attempts, refl),
        )
      ]

  -- Once the first socket is there, `net_bundle_core_module_inside_init` always ends; and where it
  -- fails, whichever of its calls was the reason, it ends by closing the first socket, and the second
  -- one where that is open. What `net_bundle_core_module_init` does afterwards is not part of this.
  pub inside_init-closes :
      (port ip t : ℕ) (log : List Call)
      → answer (socket bundle stream) ≡ some (suc t)
      → (ok : Bool) × (log' : List Call) × (inside_init answer port ip log ≡ some (ok, log'))
        × (ok ≡ false
            → (calls : List Call) × (log'
                ≡ (log ++ calls) ++ closes t (answer (socket bundle dgram))))
  unfolding inside_init open_second
  inside_init-closes port ip t log first =
      let opened = (log ++ (socket bundle stream ∷ [])) ++ (socket bundle dgram ∷ []) in
      let merge : (calls : List Call)
          → opened ++ calls ≡ log ++ ((socket bundle stream ∷ socket bundle dgram ∷ []) ++ calls) =
        λ calls. ap (λ l. l ++ calls) (append_assoc log _ _) ∙ append_assoc log _ calls in
      elim (Bool-cases (is_not_positive (answer (socket bundle dgram)))) [
        | inl bad ↦ (
          false,
          opened ++ closes t (answer (socket bundle dgram)),
          rw (first, ◌>>=◌, bad) (give_up-closes t (answer (socket bundle dgram)) opened),
          λ _. (
            socket bundle stream ∷ socket bundle dgram ∷ [],
            ap (λ l. l ++ closes t (answer (socket bundle dgram))) (append_assoc log _ _),
          ),
        )
        | inr good ↦
            let (u, second) = positive (answer (socket bundle dgram)) good in
            let (ok, log', run, closed) = set_up-closes port ip t u opened in
            (
              ok,
              log',
              rw (first, ◌>>=◌, good, second) run,
              λ e.
                  let (calls, same) = closed e in
                  (
                    (socket bundle stream ∷ socket bundle dgram ∷ []) ++ calls,
                    rw (second) (same ∙ ap (λ l. l ++ closes t (some (suc u))) (merge calls)),
                  ),
            )
      ]

  -- Where the first socket cannot be made, the start reads the second descriptor before it is set.
  pub inside_init-undefined :
      (port ip : ℕ) (log : List Call)
      → is_not_positive (answer (socket bundle stream)) ≡ true
      → inside_init answer port ip log ≡ none
  unfolding inside_init
  inside_init-undefined port ip log bad =
      rw bad
        (give_up-undefined (answer (socket bundle stream)) (log ++ (socket bundle stream ∷ [])) bad)
