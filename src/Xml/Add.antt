-- ===== src/Xml/Add.antt =====
-- net_xml_common.c, `config_add_node4`: where the path exists, it adds nothing.
use simp_dserver.Prelude.{ℕ, ◌≡◌, ◌≢◌, arith, Bool, some, List}
use simp_dserver.Hashmap.Memory.{Ptr, null}
use simp_dserver.Xml.{Document, Name, search_level3, search_level2, search4, find_or_add, add_node4}

module _ (same : List ℕ → Name → Bool) (new_child : Document → Ptr → Name → Ptr × Document) where
  -- Where `config_search4` finds a node, `config_add_node4` gives the same node and leaves the
  -- document as it is.
  pub add_node4-search4 :
      (fuel : ℕ) (t : Document) (f1 f2 f3 f4 : Name) (q : Ptr)
      → search4 same fuel t f1 f2 f3 f4 ≡ some q
      → q ≢ null
      → add_node4 same new_child fuel t f1 f2 f3 f4 ≡ some (q, t)
  unfolding add_node4 find_or_add search4 search_level2 search_level3
  add_node4-search4 fuel t f1 f2 f3 f4 q found ne = ground arith
