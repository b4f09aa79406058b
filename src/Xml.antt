-- ===== src/Xml.antt =====
-- net_xml/net_xml_common.c: searches in a document of libxml2, and additions to it. What the code
-- calls of libxml2 is a parameter: `same` is `!xmlStrcmp`, `new_child` is `xmlNewChild`.
pub mod Path
pub mod Add
pub mod Load
pub mod Config
mod Tests
use simp_dserver.Prelude.{
  ℕ, zero, suc, Bool, true, false, not, ◌||◌, Option, none, some, List, ◌==◌, if◌then◌else◌,
}
use simp_dserver.Prelude.Faults.{◌>>=◌}
use simp_dserver.Hashmap.Memory.{Ptr, null}

-- A document as the code reads it: the root element, and of each node the fields of
-- `struct _xmlNode` that are used and the attributes that `xmlGetProp` gives.
pub record Document : Type 0 where
  pub root : Ptr
  pub name : Ptr → List ℕ
  pub next : Ptr → Ptr
  pub children : Ptr → Ptr
  pub content : Ptr → List ℕ
  pub prop : Ptr → List ℕ → Option (List ℕ)

abbrev pub is_none {ℓ} : {A : Type ℓ} → Option A → Bool
is_none none = true
is_none (some a) = false

-- A name that is searched for; `none` is NULL.
abbrev pub Name : Type 0
Name = Option (List ℕ)

-- `config_search_attr_value`; to follow NULL is a fault.
pub search_attr_value : Document → Ptr → List ℕ → Option (Option (List ℕ))
search_attr_value t pnode v = if pnode == null then none else some (t.prop pnode v)

-- `config_search_children_value`
pub search_children_value : Document → Ptr → Option (List ℕ)
search_children_value t pnode =
    if pnode == null
    then none
    else if t.children pnode == null
    then none
    else some (t.content (t.children pnode))

module _ (same : List ℕ → Name → Bool) where
  -- `config_search_list`; `none` is also fuel that ran out.
  pub search_list : ℕ → Document → Ptr → Name → Option Ptr
  search_list zero t pnode v = none
  search_list (suc fuel) t pnode v =
      let rest = search_list fuel t (t.next pnode) v in
      if pnode == null then some null else if same (t.name pnode) v then some pnode else rest

  -- `config_search_next`
  pub search_next : ℕ → Document → Ptr → Name → Option Ptr
  search_next fuel t pnode v = if pnode == null then none else search_list fuel t (t.next pnode) v

  -- `config_search_children`
  pub search_children : ℕ → Document → Ptr → Name → Option Ptr
  search_children fuel t pnode v =
      if pnode == null then none else search_list fuel t (t.children pnode) v

  -- `config_search4`, from level 3 and from level 2 on.
  pub search_level3 : ℕ → Document → Ptr → Name → Option Ptr
  search_level3 fuel t pnode f4 =
      if (pnode == null) || is_none f4 then some pnode else search_children fuel t pnode f4

  pub search_level2 : ℕ → Document → Ptr → Name → Name → Option Ptr
  search_level2 fuel t pnode f3 f4 =
      if (pnode == null) || is_none f3
      then some pnode
      else do found ← search_children fuel t pnode f3; search_level3 fuel t found f4

  -- `config_search4`
  pub search4 : ℕ → Document → Name → Name → Name → Name → Option Ptr
  search4 fuel t f1 f2 f3 f4 =
      if t.root == null
      then some null
      else if not (same (t.name t.root) f1)
      then some null
      else do pnode ← search_children fuel t t.root f2; search_level2 fuel t pnode f3 f4

  module _ (new_child : Document → Ptr → Name → Ptr × Document) where
    -- `config_add_children_node`
    pub add_children_node : Document → Ptr → Name → Ptr × Document
    add_children_node t pnode v = new_child t pnode v

    -- `if ((ptmp = config_search_children(pnode, f)) == NULL) ptmp = config_add_children_node(...)`
    pub find_or_add : ℕ → Document → Ptr → Name → Option (Ptr × Document)
    find_or_add fuel t pnode f = do
      found ← search_children fuel t pnode f
      if found == null then some (add_children_node t pnode f) else some (found, t)

    -- `config_add_node4`: the node, NULL for another root, and the document afterwards.
    pub add_node4 : ℕ → Document → Name → Name → Name → Name → Option (Ptr × Document)
    add_node4 fuel t f1 f2 f3 f4 =
        if t.root == null
        then none
        else if not (same (t.name t.root) f1)
        then some (null, t)
        else do
          (one, t1) ← find_or_add fuel t t.root f2
          if is_none f3 then some (one, t1) else do
            (two, t2) ← find_or_add fuel t1 one f3
            if is_none f4 then some (two, t2) else find_or_add fuel t2 two f4

    -- `config_unlink_children4`
    pub unlink_children4 : ℕ → Document → Name → Name → Name → Name → Option (Ptr × Document)
    unlink_children4 fuel t f1 f2 f3 f4 = do
      pnode ← search4 fuel t f1 f2 f3 f4
      if pnode == null
          then add_node4 fuel t f1 f2 f3 f4
          else some (pnode, record t { children = λ q. if q == pnode then null else t.children q })
