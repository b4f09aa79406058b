-- ===== src/Start/Sockets.antt =====
-- net_bundle_core.c: the listening sockets of the bundle.
use simp_dserver.Prelude.{ℕ, Bool, true}
use simp_dserver.Start.{
  Family, stream, dgram, Call, get_flags, set_nonblock, set_keepalive, set_reuse, bind_address,
  listen, Reply, Run, pure, ◌>>◌, is_minus_one, is_nonzero, call, checked,
}

module _ (answer : Call → Reply) where
  -- `if(family == SOCK_STREAM) listen(fd, 5);`
  unfoldable pub listen_stream : ℕ → Family → Run Bool
  listen_stream fd stream = do call answer (listen fd); pure true
  listen_stream fd dgram = pure true

  -- `net_bundle_core_module_inside_sockinit`: the result is true for 0. `port` and `ip` are those of
  -- the configuration's server node.
  unfoldable pub sockinit : (port ip fd : ℕ) → Family → Run Bool
  unfolding listen_stream
  sockinit port ip fd family = checked answer (get_flags fd) is_minus_one (
      checked answer (set_nonblock fd) is_minus_one (
        checked answer (set_keepalive fd) is_nonzero (
          checked answer (set_reuse fd) is_nonzero
            (checked answer (bind_address fd port ip) is_nonzero (listen_stream fd family)))))
