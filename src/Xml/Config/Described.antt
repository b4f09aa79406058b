-- ===== src/Xml/Config/Described.antt =====
-- net_xml_config.c: what each element of the configuration means, in its own words.
use mathlib.Core.Path.{subst}
use simp_dserver.Prelude.{
  ℕ, ◌%◌, ◌≡◌, ◌≢◌, refl, inl, inr, arith, Bool, Option, none, some, List, [], ◌∷◌, length, ltb,
  ◌==◌, if◌then◌else◌, Bool-cases, Option-cases,
}
use simp_dserver.Prelude.Faults.{◌>>=◌}
use simp_dserver.Hashmap.{insert}
use simp_dserver.Hashmap.Memory.{Ptr, null, Heap}
use simp_dserver.Xml.{Document, Name, search_attr_value}
use simp_dserver.Xml.Path.{Forest, empty, tree, Shows, not_null}
use simp_dserver.Xml.Config.{
  Settings, codes, given, put_address, bind_settings, forward_settings, add_source,
}
use simp_dserver.Xml.Config.Sources.{named, add_all}

-- The value of an attribute that is there and not empty.
abbrev filled : Option (List ℕ) → Option (List ℕ)
filled none = none
filled (some text) = if ltb 0 (length text) then some text else none

pub filled_in : Document → Ptr → List ℕ → Option (List ℕ)
filled_in t p name = filled (t.prop p name)

given-cases : (o : Option (List ℕ)) → given o ≡ filled o
unfolding given
given-cases none = refl
given-cases (some []) = refl
given-cases (some (c ∷ cs)) = ground arith

given-filled_in :
    (t : Document) (p : Ptr) (name : List ℕ) → given (t.prop p name) ≡ filled_in t p name
unfolding filled_in
given-filled_in t p name = given-cases (t.prop p name)

abbrev AreThere : List Ptr → Type 0
AreThere [] = Unit
AreThere (p ∷ ps) = (p ≢ null) × AreThere ps

module _ (same : List ℕ → Name → Bool) (inet_pton : List ℕ → Option ℕ) (atoi : List ℕ → ℕ)
    (malloc : Heap → Ptr) where
  -- The address that a text stands for; a text that is none leaves `old`.
  pub to_address : List ℕ → ℕ → ℕ
  to_address text old = elim (inet_pton text) [ none ↦ old | some ip ↦ ip ]

  -- The address to bind, with an element `BindSource`: 0, for any, where the attribute is missing.
  pub bind_address : Document → Ptr → ℕ → ℕ
  unfolding filled_in to_address
  bind_address t p old =
      if p == null
      then old
      else elim (filled_in t p (codes "ipaddr")) [ none ↦ 0 | some text ↦ to_address text old ]

  pub bind_port : Document → Ptr → ℕ → ℕ
  unfolding filled_in
  bind_port t p old =
      if p == null
      then old
      else elim (filled_in t p (codes "port")) [ none ↦ 53 | some text ↦ atoi text % 65536 ]

  -- The upstream server, with an element `Forward`.
  pub upstream_address : Document → Ptr → ℕ → ℕ
  unfolding filled_in to_address
  upstream_address t p old = if p == null then old else elim (filled_in t p (codes "ipaddr")) [
    | none ↦ to_address (codes "8.8.8.8") old
    | some text ↦ to_address text old
  ]

  -- The host of an `IPSource` and its address: a domain shorter than 512 bytes, and an attribute for
  -- the address that is not empty. One that is no address stands for 0.
  pub host_of : Document → Ptr → Option (List ℕ × ℕ)
  unfolding filled_in to_address
  host_of t p = do
    host ← t.prop p (codes "Domain")
    text ← filled_in t p (codes "ipaddr")
    if ltb (length host) 512 then some (host, to_address text 0) else none

  pub hosts_of : Document → List Ptr → List (List ℕ × ℕ)
  hosts_of t [] = []
  hosts_of t (p ∷ ps) = elim (host_of t p) [
    | none ↦ hosts_of t ps
    | some entry ↦ entry ∷ hosts_of t ps
  ]

  pub insert_all : ℕ → List (List ℕ × ℕ) → Heap → Option Heap
  insert_all fuel [] m = some m
  insert_all fuel ((host, ip) ∷ entries) m = do
    (inserted, m') ← insert fuel (malloc m) host (length host) ip m
    insert_all fuel entries m'

  pub bind_settings-described :
      (t : Document) (p : Ptr) (s : Settings)
      → bind_settings same inet_pton atoi malloc t p s
        ≡ some (record s { bindip = bind_address t p (s.bindip); port = bind_port t p (s.port) })
  unfolding bind_settings bind_address bind_port put_address search_attr_value to_address
  bind_settings-described t p s = elim (Bool-cases (p == null)) [
    | inl missing ↦ rw missing refl
    | inr there ↦
        rw (there, given-filled_in t p (codes "ipaddr"), given-filled_in t p (codes "port")) refl
  ]

  pub forward_settings-described :
      (t : Document) (p : Ptr) (s : Settings)
      → forward_settings same inet_pton atoi malloc t p s
        ≡ some (record s { forwdip = upstream_address t p (s.forwdip) })
  unfolding forward_settings upstream_address put_address search_attr_value to_address
  forward_settings-described t p s = elim (Bool-cases (p == null)) [
    | inl missing ↦ rw missing refl
    | inr there ↦ rw (there, given-filled_in t p (codes "ipaddr")) refl
  ]

  -- What an element adds to the host map.
  abbrev insert_host : ℕ → Option (List ℕ × ℕ) → Heap → Option Heap
  insert_host fuel none m = some m
  insert_host fuel (some (host, ip)) m = do
    (inserted, m') ← insert fuel (malloc m) host (length host) ip m
    some m'

  add_source-described :
      (fuel : ℕ) (t : Document) (p : Ptr) (m : Heap)
      → p ≢ null
      → add_source same inet_pton atoi malloc fuel t p m ≡ insert_host fuel (host_of t p) m
  unfolding add_source host_of put_address search_attr_value to_address
  add_source-described fuel t p m ne = elim (Option-cases (t.prop p (codes "Domain"))) [
    | inl nameless ↦ rw (not_null p ne, nameless) refl
    | inr (host, domain) ↦ elim (Option-cases (filled_in t p (codes "ipaddr"))) [
      | inl missing ↦
          rw (not_null p ne, domain, given-filled_in t p (codes "ipaddr"), ◌>>=◌, missing) refl
      | inr (text, there) ↦ elim (Bool-cases (ltb (length host) 512)) [
        | inl fits ↦
            rw (not_null p ne, domain, given-filled_in t p (codes "ipaddr"), ◌>>=◌, there, fits)
              refl
        | inr long ↦
            rw (not_null p ne, domain, given-filled_in t p (codes "ipaddr"), ◌>>=◌, there, long)
              refl
      ]
    ]
  ]

  add_all-listed :
      (fuel : ℕ) (t : Document) (ps : List Ptr) (m : Heap)
      → AreThere ps
      → add_all same inet_pton atoi malloc fuel t ps m ≡ insert_all fuel (hosts_of t ps) m
  unfolding add_all hosts_of insert_all
  add_all-listed fuel t [] m there = refl
  add_all-listed fuel t (p ∷ ps) m (ne, there) = elim (Option-cases (host_of t p)) [
    | inl nothing ↦
        rw (add_source-described fuel t p m ne, hosts_of, nothing)
          (add_all-listed fuel t ps m there)
    | inr ((host, ip), entry) ↦
        elim (Option-cases (insert fuel (malloc m) host (length host) ip m)) [
          | inl fault ↦ rw (add_source-described fuel t p m ne, hosts_of, entry, ◌>>=◌, fault) refl
          | inr ((inserted, m'), run) ↦
              rw (add_source-described fuel t p m ne, hosts_of, entry, ◌>>=◌, run)
                (add_all-listed fuel t ps m' there)
        ]
  ]

  named-AreThere :
      (f : Forest) (v : Name) (t : Document) (p : Ptr)
      → Shows t p f
      → AreThere (named same inet_pton atoi malloc v f)
  unfolding named
  named-AreThere empty v t p shows = tt
  named-AreThere (tree q name kids rest) v t p (here, ne, is_name, down, right) =
      let others = named-AreThere rest v t (t.next p) right in
      elim (Bool-cases (same name v)) [
        | inl hit ↦ rw hit (subst (λ x. x ≢ null) here ne, others)
        | inr miss ↦ rw miss others
      ]

  -- The loop over the elements of a name inserts their hosts, in order.
  pub add_all-described :
      (f : Forest) (v : Name) (fuel : ℕ) (t : Document) (p : Ptr) (m : Heap)
      → Shows t p f
      → add_all same inet_pton atoi malloc fuel t (named same inet_pton atoi malloc v f) m
        ≡ insert_all fuel (hosts_of t (named same inet_pton atoi malloc v f)) m
  add_all-described f v fuel t p m shows =
      add_all-listed fuel t (named same inet_pton atoi malloc v f) m (named-AreThere f v t p shows)
