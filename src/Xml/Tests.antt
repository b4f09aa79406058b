-- ===== src/Xml/Tests.antt =====
-- A configuration with two hosts, and the theorems at it.
use simp_dserver.Prelude.{
  ℕ, ◌≡◌, ◌↔◌, refl, Bool, true, false, ◌&&◌, Option, none, some, List, [], ◌∷◌, ◌++◌, arith,
  length, ◌==◌, if◌then◌else◌,
}
use simp_dserver.Hashmap.Memory.{
  Ptr, null, Heap, load, store, set_parent, set_color, set_left, set_right, get_root, set_root,
  is_red,
}
use simp_dserver.Hashmap.{insert}
use simp_dserver.Hashmap.Rbtree.{insert_color}
use simp_dserver.Hashmap.Text.{hash, strcmp}
use simp_dserver.Xml.{
  Document, Name, search_list, search_next, search_attr_value, search_children, search_level2,
  search_level3, search4, add_node4,
}
use simp_dserver.Xml.Path.{Forest, empty, tree, Shows, find, follow, levels, search4-follow}
use simp_dserver.Xml.Add.{add_node4-search4}
use simp_dserver.Xml.Load.{
  Encoding, utf8, gb2312, unicode, load_document, attempts, load_document_lem,
}
use simp_dserver.Xml.Config.{
  Settings, codes, bind_settings, forward_settings, add_source, add_sources, parser,
}
use simp_dserver.Xml.Config.Parse.{configured, parser-configured}

same_bytes : List ℕ → List ℕ → Bool
same_bytes [] [] = true
same_bytes [] (d ∷ ds) = false
same_bytes (c ∷ cs) [] = false
same_bytes (c ∷ cs) (d ∷ ds) = (c == d) && same_bytes cs ds

same : List ℕ → Name → Bool
same a none = false
same a (some b) = same_bytes a b

-- DNSCONFIG (1) has Server (2) with BindSource (3), Record (4) with Forward (5), and Root (6) with
-- two times IPSource (7, 8).
abbrev names : Ptr → List ℕ
names p =
    if p == 1
    then codes "DNSCONFIG"
    else if p == 2
    then codes "Server"
    else if p == 3
    then codes "BindSource"
    else if p == 4
    then codes "Record"
    else if p == 5
    then codes "Forward"
    else if p == 6
    then codes "Root"
    else codes "IPSource"

abbrev following : Ptr → Ptr
following p = if p == 2 then 4 else if p == 4 then 6 else if p == 7 then 8 else null

abbrev first_child : Ptr → Ptr
first_child p =
    if p == 1 then 2 else if p == 2 then 3 else if p == 4 then 5 else if p == 6 then 7 else null

is_domain : List ℕ → Bool
is_domain v = same_bytes v (codes "Domain")

attribute : Ptr → List ℕ → Option (List ℕ)
attribute p v =
    if p == 7
    then (if is_domain v then some (codes "a.b") else some (codes "1"))
    else if p == 8
    then (if is_domain v then some (codes "c.d") else some (codes "2"))
    else if p == 5
    then some (codes "3")
    else none

abbrev config : Document
config = record {
  root = 1;
  name = names;
  next = following;
  children = first_child;
  content = λ p. [];
  prop = attribute;
}

abbrev elements : Forest
elements = tree 2 (codes "Server") (tree 3 (codes "BindSource") empty empty) (
    tree 4 (codes "Record") (tree 5 (codes "Forward") empty empty) (
      tree 6 (codes "Root")
        (tree 7 (codes "IPSource") empty (tree 8 (codes "IPSource") empty empty)) empty))

elements-Shows : Shows config 2 elements
elements-Shows = (
  refl,
  omega arith,
  refl,
  (refl, omega arith, refl, refl, refl),
  (
    refl,
    omega arith,
    refl,
    (refl, omega arith, refl, refl, refl),
    (
      refl,
      omega arith,
      refl,
      (refl, omega arith, refl, refl, (refl, omega arith, refl, refl, refl)),
      refl,
    ),
  ),
)

root_name : same (codes "DNSCONFIG") (some (codes "DNSCONFIG")) ≡ true
unfolding same same_bytes
root_name = refl

search4-follow_example :
    search4 same 9 config
      (some (codes "DNSCONFIG"))
      (some (codes "Root"))
      (some (codes "IPSource"))
      none
    ≡ some (
        if same (codes "DNSCONFIG") (some (codes "DNSCONFIG"))
        then follow same
            (levels same (some (codes "IPSource")) none)
            (find same elements (some (codes "Root")))
        else null)
search4-follow_example =
    search4-follow same 9 config elements (some (codes "DNSCONFIG")) (some (codes "Root"))
      (some (codes "IPSource")) none (omega arith) elements-Shows (omega arith)

-- A library that puts every new child at 9.
new_child : Document → Ptr → Name → Ptr × Document
new_child t p v = (9, t)

found :
    search4 same 9 config
      (some (codes "DNSCONFIG"))
      (some (codes "Record"))
      (some (codes "Forward"))
      none
    ≡ some 5
unfolding search4 search_level2 search_level3 search_children search_list same same_bytes
found = refl

add_node4-search4_example :
    add_node4 same new_child 9 config
      (some (codes "DNSCONFIG"))
      (some (codes "Record"))
      (some (codes "Forward"))
      none
    ≡ some (5, config)
add_node4-search4_example =
    add_node4-search4 same new_child 9 config (some (codes "DNSCONFIG")) (some (codes "Record"))
      (some (codes "Forward")) none 5 found (omega arith)

-- The first reading has no root, the second is refused.
read_file : Encoding → Option ℕ
read_file utf8 = some 1
read_file gb2312 = none
read_file unicode = some 3

load_document_lem_example :
    ((d : ℕ)
      → ((load_document true read_file (λ d. d == 2)).result ≡ some d)
        ↔ ((◌≡◌ {A = Bool} true true) × (read_file utf8 ≡ some d) × ((d == 2) ≡ true)))
    × ((load_document true read_file (λ d. d == 2)).result ≡ none
        → ◌≡◌ {A = Bool} true true
        → (load_document true read_file (λ d. d == 2)).freed
          ≡ attempts true read_file (λ d. d == 2) utf8
            ++ (attempts true read_file (λ d. d == 2) gb2312
                ++ attempts true read_file (λ d. d == 2) unicode))
load_document_lem_example = load_document_lem true read_file (λ d. d == 2)

to_address : List ℕ → Option ℕ
to_address [] = none
to_address (c ∷ cs) = some c

abbrev unset : Settings
unset = record {
  bindip = 7;
  port = 7;
  forwdip = 7;
  hosts = record { cells = λ p. none; roots = λ h. null };
}

unused : Heap → Ptr
unused m = if m.roots 0 == null then 20 else 21

parser-configured_example :
    parser same to_address length unused 9 (some config) unset
    ≡ configured same to_address length unused 9 config elements unset
parser-configured_example =
    parser-configured same to_address length unused 9 config elements unset (omega arith) root_name
      elements-Shows (omega arith)

summary : Option (Bool × Settings) → List ℕ
summary none = []
summary (some (ok, s)) = s.bindip ∷ s.port ∷ s.forwdip ∷ []

parser_test :
    summary (parser same to_address length unused 9 (some config) unset) ≡ 0 ∷ 53 ∷ b'3' ∷ []
unfolding summary parser search4 search_level2 search_level3 search_children search_list search_next
    search_attr_value bind_settings forward_settings add_source add_sources same same_bytes
    attribute is_domain to_address unused insert hash strcmp insert_color load store set_parent
    set_color set_left set_right get_root set_root is_red
parser_test = refl
