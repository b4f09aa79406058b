-- ===== src/Xml/Load.antt =====
-- net_xml/net_xml_common.c: loading a document, and freeing it and its attributes. What the code
-- calls of libxml2 and of the system is a parameter, a function that gives the result of the call.
use simp_dserver.Prelude.{
  ℕ, ◌≡◌, Bool, true, false, Option, none, some, List, [], ◌∷◌, ◌++◌, ◌↔◌, arith, if◌then◌else◌,
}

-- The encodings that are tried.
pub data Encoding : Type 0 where
  utf8 gb2312 unicode : Encoding

-- A document that was loaded, and those that were freed on the way.
pub record Loaded (Doc : Type 0) : Type 0 where
  pub result : Option Doc
  pub freed : List Doc

-- `config_attr_free`: whether `xmlFree` is called.
pub attr_free : Option (List ℕ) → Bool
attr_free none = false
attr_free (some attr) = true

module _ {Doc : Type 0} where
  -- `config_free`: the documents freed.
  pub free : Doc → List Doc → List Doc
  free doc freed = freed ++ (doc ∷ [])

  module _ (accessible : Bool) (read_file : Encoding → Option Doc) (has_root : Doc → Bool) where
    -- The readings as GB2312 and as UNICODE, where `proot` is what the first reading left.
    pub try_unicode : Bool → List Doc → Loaded Doc
    unfolding free
    try_unicode proot freed = elim (read_file unicode) [
      | none ↦ record { result = none; freed = freed }
      | some doc ↦
          if proot
          then record { result = some doc; freed = freed }
          else record { result = none; freed = free doc freed }
    ]

    pub try_gb2312 : Bool → List Doc → Loaded Doc
    unfolding free try_unicode
    try_gb2312 proot freed = elim (read_file gb2312) [
      | none ↦ try_unicode proot freed
      | some doc ↦
          if proot
          then record { result = some doc; freed = freed }
          else try_unicode proot (free doc freed)
    ]

    -- `config_load`
    pub load_document : Loaded Doc
    unfolding free try_gb2312
    load_document =
        if accessible
        then elim (read_file utf8) [
          | none ↦ try_gb2312 false []
          | some doc ↦
              if has_root doc
              then record { result = some doc; freed = [] }
              else try_gb2312 false (free doc [])
        ]
        else record { result = none; freed = [] }

    abbrev pub attempts : Encoding → List Doc
    attempts e = elim (read_file e) [ none ↦ [] | some doc ↦ doc ∷ [] ]

    -- Loading succeeds exactly where the file is there and its reading as UTF-8 gives a document with
    -- a root, which is then the result. In every other case the result is NULL; and if the file was
    -- there, the documents that were read, in whichever of the three encodings, are freed, each once.
    pub load_document_lem :
        ((d : Doc)
          → (load_document.result ≡ some d)
            ↔ ((accessible ≡ true) × (read_file utf8 ≡ some d) × (has_root d ≡ true)))
        × (load_document.result ≡ none
            → accessible ≡ true
            → load_document.freed ≡ attempts utf8 ++ (attempts gb2312 ++ attempts unicode))
    unfolding load_document
    load_document_lem =
        (λ d. ((λ h. ground arith), (λ h. ground arith)), λ none_loaded there. ground arith)
