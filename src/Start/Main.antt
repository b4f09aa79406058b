-- ===== src/Start/Main.antt =====
-- net_main/net_main.c: the options, and the order in which the parts start.
use simp_dserver.Prelude.{
  ℕ, Bool, true, false, Option, none, some, List, [], ◌∷◌, ◌==◌, if◌then◌else◌,
}
use simp_dserver.Hashmap.{init}
use simp_dserver.Hashmap.Memory.{Ptr, Heap}
use simp_dserver.Start.{work, forward, Call, daemon, Reply, Run, pure, ◌>>◌, call}
use simp_dserver.Start.Threads.{work_init, release_thread}
use simp_dserver.Start.Forward.{forward_init}
use simp_dserver.Start.Bundle.{bundle_init, bundle_run}
use simp_dserver.Xml.{Document, Name}
use simp_dserver.Xml.Config.{Settings, config_init, parser}

-- The loop over what `getopt` gives: `none` where the program prints a text and returns, else
-- whether it runs in the background.
pub read_options : List ℕ → Bool → Option Bool
read_options [] dmon = some dmon
read_options (opt ∷ opts) dmon =
    if opt == b'h'
    then none
    else if opt == b'v'
    then none
    else read_options opts (if opt == b'd' then true else dmon)

module _ (answer : Call → Reply) (unset : Bool) where
  -- From `net_work_module.init` on: no result is looked at.
  pub start_parts : Settings → Run Bool
  unfolding work_init release_thread forward_init bundle_init bundle_run
  start_parts s = do
    work_init answer
    release_thread answer work
    forward_init answer unset
    release_thread answer forward
    bundle_init answer s.port s.bindip
    bundle_run answer

  -- `if(dmon) daemon(1, 1);`
  pub go_background : Bool → Run Bool
  go_background false = pure true
  go_background true = do call answer daemon; pure true

  module _ (same : List ℕ → Name → Bool) (inet_pton : List ℕ → Option ℕ) (atoi : List ℕ → ℕ)
      (malloc : Heap → Ptr) where
    -- `main`: the configuration is what `config_load` gave, and the static data is zero.
    pub main : ℕ → List ℕ → Option Document → Heap → Run (Option Settings)
    unfolding go_background start_parts
    main fuel opts loaded memory = elim (read_options opts false) [
      | none ↦ pure none
      | some dmon ↦ (do
        go_background dmon
        elim (parser same inet_pton atoi malloc fuel (config_init loaded).1
            (record { bindip = 0; port = 0; forwdip = 0; hosts = init memory })) [
              | none ↦ (λ log. none)
              | some (ok, s) ↦ (do start_parts s; pure (some s))
            ])
    ]
