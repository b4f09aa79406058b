-- ===== src/Xml/Config/Parse.antt =====
-- net_xml_config.c, `net_xml_config_module_parser`: against the tree of elements.
use simp_dserver.Prelude.{
  ℕ, ◌<◌, ◌≤◌, ◌≡◌, ◌≢◌, refl, ◌∙◌, arith, Bool, true, Option, none, some, List, [], ◌∷◌,
}
use simp_dserver.Prelude.Faults.{◌>>=◌}
use simp_dserver.Hashmap.Memory.{Ptr, null, Heap}
use simp_dserver.Xml.{Document, Name, search4}
use simp_dserver.Xml.Path.{
  Forest, empty, tree, Shows, size, head_ptr, find, follow, levels, children-find, search4-follow,
}
use simp_dserver.Xml.Config.{Settings, codes, add_sources, parser}
use simp_dserver.Xml.Config.Sources.{named, add_sources-add_all}
use simp_dserver.Xml.Config.Described.{
  bind_address, bind_port, upstream_address, hosts_of, insert_all, bind_settings-described,
  forward_settings-described, add_all-described,
}

-- The children of the first of the siblings.
abbrev pub kids_of : Forest → Forest
kids_of empty = empty
kids_of (tree q name kids rest) = kids

kids_of-Shows :
    (t : Document) (f : Forest)
    → Shows t (head_ptr f) f
    → (p : Ptr) × Shows t p (kids_of f) × (size (kids_of f) ≤ size f)
kids_of-Shows t empty shows = (null, refl, omega arith)
kids_of-Shows t (tree q name kids rest) (_, _, _, down, _) = (t.children q, down, omega arith)

module _ (same : List ℕ → Name → Bool) where
  follow_one : (f : Forest) (v : Name) → follow same (v ∷ []) f ≡ head_ptr (find same (kids_of f) v)
  unfolding follow find
  follow_one empty v = refl
  follow_one (tree q name kids rest) v = refl

  -- What two names below the root lead to.
  pub under : Forest → List ℕ → List ℕ → Ptr
  under kids a b = follow same (some b ∷ []) (find same kids (some a))

  search3-under :
      (fuel : ℕ) (t : Document) (kids : Forest) (r a b : List ℕ)
      → t.root ≢ null
      → same (t.name t.root) (some r) ≡ true
      → Shows t (t.children t.root) kids
      → size kids < fuel
      → search4 same fuel t (some r) (some a) (some b) none ≡ some (under kids a b)
  unfolding under levels
  search3-under fuel t kids r a b ne is_root shows fits =
      rw (search4-follow same fuel t kids (some r) (some a) (some b) none ne shows fits, is_root)
        refl

module _ (same : List ℕ → Name → Bool) (inet_pton : List ℕ → Option ℕ) (atoi : List ℕ → ℕ)
    (malloc : Heap → Ptr) where
  -- The settings as the configuration describes them: the addresses and the port of the elements
  -- Server/BindSource and Record/Forward, and the hosts of all elements Root/IPSource in order.
  pub configured : ℕ → Document → Forest → Settings → Option (Bool × Settings)
  configured fuel t kids s = do
    m ←
        insert_all same inet_pton atoi malloc fuel
          (hosts_of same inet_pton atoi malloc t (
            named same inet_pton atoi malloc (some (codes "IPSource"))
              (kids_of (find same kids (some (codes "Root"))))))
          s.hosts
    some (
      true,
      record {
        bindip =
            bind_address same inet_pton atoi malloc t
              (under same kids (codes "Server") (codes "BindSource")) (s.bindip);
        port =
            bind_port same inet_pton atoi malloc t
              (under same kids (codes "Server") (codes "BindSource")) (s.port);
        forwdip =
            upstream_address same inet_pton atoi malloc t
              (under same kids (codes "Record") (codes "Forward")) (s.forwdip);
        hosts = m;
      },
    )

  sources_lem :
      (fuel : ℕ) (t : Document) (kids : Forest) (m : Heap)
      → t.root ≢ null
      → Shows t (t.children t.root) kids
      → size kids < fuel
      → add_sources same inet_pton atoi malloc fuel fuel t
          (under same kids (codes "Root") (codes "IPSource"))
          m
        ≡ insert_all same inet_pton atoi malloc fuel
            (hosts_of same inet_pton atoi malloc t (
              named same inet_pton atoi malloc
                (some (codes "IPSource"))
                (kids_of (find same kids (some (codes "Root"))))))
            m
  unfolding under
  sources_lem fuel t kids m ne shows fits =
      let (run, there, small) =
        children-find same fuel t (t.root) kids (some (codes "Root")) ne shows fits in
      let (p, down, smaller) = kids_of-Shows t (find same kids (some (codes "Root"))) there in
      rw (follow_one same (find same kids (some (codes "Root"))) (some (codes "IPSource"))) (
        add_sources-add_all same inet_pton atoi malloc
          (kids_of (find same kids (some (codes "Root")))) fuel fuel t p m down (omega arith)
          (omega arith)
        ∙ add_all-described same inet_pton atoi malloc
            (kids_of (find same kids (some (codes "Root")))) (some (codes "IPSource")) fuel t p m
            down)

  -- For a document whose root is DNSCONFIG and shows an element with these children, with fuel
  -- above the number of the elements, the parser does what the tree of elements describes, and
  -- faults only where an insertion into the host map does. Of the first BindSource below the first
  -- Server come the address to bind, 0 where it has no `ipaddr`, and the port modulo 2 ^ 16, 53
  -- where it has none; of the first Forward below the first Record comes the upstream server,
  -- 8.8.8.8 where it has no `ipaddr`. An empty attribute counts as missing; a text that is not an
  -- address leaves the old setting, and so does a missing element. Then the hosts of all children
  -- of the first Root that are called IPSource are inserted, in their order: those with a Domain
  -- shorter than 512 bytes and an `ipaddr` that is not empty, under its address, or 0 where it is
  -- none.
  pub parser-configured :
      (fuel : ℕ) (t : Document) (kids : Forest) (s : Settings)
      → t.root ≢ null
      → same (t.name t.root) (some (codes "DNSCONFIG")) ≡ true
      → Shows t (t.children t.root) kids
      → size kids < fuel
      → parser same inet_pton atoi malloc fuel (some t) s ≡ configured fuel t kids s
  unfolding parser configured
  parser-configured fuel t kids s ne is_root shows fits =
      rw
        (
          search3-under same fuel t kids (codes "DNSCONFIG") (codes "Server") (codes "BindSource")
              ne is_root shows fits,
          search3-under same fuel t kids (codes "DNSCONFIG") (codes "Record") (codes "Forward") ne
              is_root shows fits,
          search3-under same fuel t kids (codes "DNSCONFIG") (codes "Root") (codes "IPSource") ne
              is_root shows fits,
          ◌>>=◌,
          bind_settings-described same inet_pton atoi malloc t
              (under same kids (codes "Server") (codes "BindSource")) s,
          forward_settings-described same inet_pton atoi malloc t
              (under same kids (codes "Record") (codes "Forward")),
          sources_lem fuel t kids s.hosts ne shows fits,
        )
        refl
