-- ===== src/Xml/Config.antt =====
-- net_xml/net_xml_config.c: the settings and the hosts that the configuration gives. `inet_pton`
-- (none where it refuses the text), `atoi` and `malloc` are parameters. The attributes are given
-- back to the library; what it then does with them is not modelled.
pub mod Described
pub mod Sources
pub mod Parse
use Prim.Native.Char.{code}
use Prim.Native.String.{String}
use simp_dserver.Prelude.{
  ℕ, zero, suc, ◌%◌, ◌^◌, Bool, true, false, Option, none, some, List, [], ◌∷◌, length, ltb, ◌==◌,
  not, ◌&&◌, if◌then◌else◌,
}
use simp_dserver.Prelude.Faults.{◌>>=◌}
use simp_dserver.Hashmap.{insert}
use simp_dserver.Hashmap.Memory.{Ptr, null, Heap}
use simp_dserver.Hashmap.Text.{domain_len}
use simp_dserver.Xml.{Document, Name, search4, search_next, search_attr_value}

-- The bytes of an ASCII text.
abbrev pub codes : String → List ℕ
codes String.[] = []
codes (String.◌∷◌ c s) = code c ∷ codes s

-- `net_xml_config_server_node`, `net_xml_config_forward_node`, and the host map.
pub record Settings : Type 0 where
  pub bindip : ℕ
  pub port : ℕ
  pub forwdip : ℕ
  pub hosts : Heap

-- INADDR_ANY
abbrev pub inaddr_any : ℕ
inaddr_any = 0

abbrev pub default_dnsname : List ℕ
default_dnsname = codes "8.8.8.8"

abbrev pub default_port : ℕ
default_port = 53

-- `text && strlen(text) > 0`: the text if it is there and not empty.
pub given : Option (List ℕ) → Option (List ℕ)
given none = none
given (some []) = none
given (some (c ∷ cs)) = some (c ∷ cs)

-- `net_xml_config_module_init`: the document, from what `config_load` gives; the result is true for 0.
pub config_init : Option Document → Bool × Option Document
config_init none = (false, none)
config_init (some t) = (true, some t)

-- `net_xml_config_module_release`: whether the document is freed.
pub release : Option Document → Bool
release none = false
release (some t) = true

module _ (same : List ℕ → Name → Bool) (inet_pton : List ℕ → Option ℕ) (atoi : List ℕ → ℕ)
    (malloc : Heap → Ptr) where
  -- `inet_pton(AF_INET, text, &old)`
  pub put_address : List ℕ → ℕ → ℕ
  put_address text old = elim (inet_pton text) [ none ↦ old | some ip ↦ ip ]

  -- `/*parse BindSource*/`: `port` is 16 bits wide.
  unfoldable pub bind_settings : Document → Ptr → Settings → Option Settings
  unfolding put_address given
  bind_settings t ptr s = if ptr == null then some s else do
    ipaddr ← search_attr_value t ptr (codes "ipaddr")
    port ← search_attr_value t ptr (codes "port")
    some (record s {
      bindip = elim (given ipaddr) [ none ↦ inaddr_any | some text ↦ put_address text s.bindip ];
      port = elim (given port) [ none ↦ default_port | some text ↦ atoi text % 2 ^ 16 ];
    })

  -- `/*parse Record*/`
  unfoldable pub forward_settings : Document → Ptr → Settings → Option Settings
  unfolding put_address given
  forward_settings t ptr s = if ptr == null then some s else do
    ipaddr ← search_attr_value t ptr (codes "ipaddr")
    some (record s {
      forwdip = elim (given ipaddr) [
        | none ↦ put_address default_dnsname s.forwdip
        | some text ↦ put_address text s.forwdip
      ];
    })

  -- The body of the loop over `IPSource`.
  unfoldable pub add_source : ℕ → Document → Ptr → Heap → Option Heap
  unfolding put_address given
  add_source fuel t ptr m = do
    domain ← search_attr_value t ptr (codes "Domain")
    ipaddr ← search_attr_value t ptr (codes "ipaddr")
    elim domain [
      | none ↦ some m
      | some host ↦ elim (given ipaddr) [
        | none ↦ some m
        | some text ↦
            if ltb (length host) domain_len
            then (do
              (inserted, m') ← insert fuel (malloc m) host (length host) (put_address text 0) m
              some m')
            else some m
      ]
    ]

  -- `/*parse root*/`: the loop from `ptr` on.
  unfoldable pub add_sources : (rounds fuel : ℕ) → Document → Ptr → Heap → Option Heap
  add_sources zero fuel t ptr m = none
  add_sources (suc rounds) fuel t ptr m = if ptr == null then some m else do
    m' ← add_source fuel t ptr m
    ptr' ← search_next same fuel t ptr (some (codes "IPSource"))
    add_sources rounds fuel t ptr' m'

  -- `net_xml_config_module_parser`: the result is true for 0.
  unfoldable pub parser : ℕ → Option Document → Settings → Option (Bool × Settings)
  parser fuel none s = some (false, s)
  parser fuel (some t) s = do
    bind ←
        search4 same fuel t (some (codes "DNSCONFIG")) (some (codes "Server"))
          (some (codes "BindSource")) none
    s1 ← bind_settings t bind s
    forward ←
        search4 same fuel t (some (codes "DNSCONFIG")) (some (codes "Record"))
          (some (codes "Forward")) none
    s2 ← forward_settings t forward s1
    source ←
        search4 same fuel t (some (codes "DNSCONFIG")) (some (codes "Root"))
          (some (codes "IPSource")) none
    m ← add_sources fuel fuel t source s2.hosts
    some (true, record s2 { hosts = m })
