-- ===== src/Policy/Registry/Loading.antt =====
-- What a registry that `NewRegistry` of internal/policy/registry.go loads from a file holds.
use external_gateway.Prelude.{
  true, Bytes, [], ◌∷◌, Option, none, some, codes, str_eq, str_eq_iff, Map, lookup, insert,
  lookup-insert, is_some, ok, ◌>>=◌, bind-eq-ok, ◌≡◌, ◌≢◌, ◌⊎◌, inl, inr, refl, sym, ◌∙◌, subst,
  arith, All, Bool-cases,
}
use external_gateway.Policy.{MultipartSpec, ParamDef, Operation, Compile}
use external_gateway.Policy.Registry.{
  check_patterns, multipart_complete, check_multipart, with_id, load_each, register_built_in,
  new_registry, or_built_in, jira_search, jira_create, jira_comment, jira_status, pg_query,
}

-- An upload form that can be filled in: it names a field and two parameters that the operation
-- declares, for the file's name and its content, and no body template stands beside it.
pub record IsComplete (op : Operation) (mp : MultipartSpec) : Type 0 where
  pub field : mp.field ≢ []
  pub filename : (def : ParamDef) × (lookup mp.filename_param op.params ≡ some def)
  pub content : (def : ParamDef) × (lookup mp.content_param op.params ≡ some def)
  pub no_template : op.body_template ≡ []

present : (o : Option ParamDef) → is_some o ≡ true → (def : ParamDef) × (o ≡ some def)
present none h = absurd (ground arith)
present (some def) h = (def, refl)

multipart_complete-IsComplete :
    (op : Operation) (mp : MultipartSpec) → multipart_complete op mp ≡ true → IsComplete op mp
unfolding multipart_complete
multipart_complete-IsComplete op mp h = record {
  field = ground (arith, str_eq_iff mp.field []);
  filename = present (lookup mp.filename_param op.params) (ground arith);
  content = present (lookup mp.content_param op.params) (ground arith);
  no_template = ground (arith, str_eq_iff op.body_template []);
}

module _ (compile : Compile) where
  -- The parameter's pattern is absent or compiles.
  abbrev pub HasPattern : Bytes × ParamDef → Type 0
  HasPattern (name, def) = (def.pattern ≡ []) ⊎ (is_some (compile def.pattern) ≡ true)

  -- A loaded operation: registered under its own id, its patterns compile, and its upload form
  -- names parameters that it declares and has no body template beside it.
  pub record IsLoaded (id : Bytes) (op : Operation) : Type 0 where
    pub own_id : op.id ≡ id
    pub patterns : All HasPattern op.params
    pub multipart : (mp : MultipartSpec) → op.multipart ≡ some mp → IsComplete op mp

  check_patterns_sound :
      (id : Bytes) (defs : Map ParamDef)
      → check_patterns compile id defs ≡ ok tt
      → All HasPattern defs
  unfolding check_patterns
  check_patterns_sound id [] h = tt
  check_patterns_sound id ((name, def) ∷ defs) h =
      ground (arith, str_eq_iff def.pattern [], check_patterns_sound id defs)

  check_multipart_sound :
      (id : Bytes) (op : Operation) (mp : MultipartSpec)
      → check_multipart compile id op ≡ ok tt
      → op.multipart ≡ some mp
      → multipart_complete op mp ≡ true
  unfolding check_multipart
  check_multipart_sound id op mp h e = ground (arith)

  -- Every operation that the registry finds is loaded.
  abbrev pub AllLoaded : Map Operation → Type 0
  AllLoaded reg = (id : Bytes) (op : Operation) → lookup id reg ≡ some op → IsLoaded id op

  with_id-IsLoaded :
      (id : Bytes) (op : Operation)
      → check_patterns compile id op.params ≡ ok tt
      → check_multipart compile id op ≡ ok tt
      → IsLoaded id (with_id id op)
  unfolding with_id
  with_id-IsLoaded id op p m = record {
    own_id = refl;
    patterns = check_patterns_sound id op.params p;
    multipart = λ mp e.
        let complete = multipart_complete-IsComplete op mp (check_multipart_sound id op mp m e) in
        record {
          field = complete.field;
          filename = complete.filename;
          content = complete.content;
          no_template = complete.no_template;
        };
  }

  insert-AllLoaded :
      (id : Bytes) (op : Operation) (reg : Map Operation)
      → IsLoaded id op
      → AllLoaded reg
      → AllLoaded (insert id op reg)
  insert-AllLoaded id op reg l all = λ j o h. elim (Bool-cases (str_eq id j)) [
    | inl e ↦
        let found : some op ≡ some o = sym (rw (lookup-insert id j op reg, e) refl) ∙ h in
        let same : op ≡ o = ground arith in
        let key : id ≡ j = ground (arith, str_eq_iff id j) in
        subst (λ q. IsLoaded j q) same (subst (λ k. IsLoaded k op) key l)
    | inr e ↦ all j o (sym (rw (lookup-insert id j op reg, e) refl) ∙ h)
  ]

  load_each-AllLoaded :
      (ops reg : Map Operation) {loaded : Map Operation}
      → AllLoaded reg
      → load_each compile ops reg ≡ ok loaded
      → AllLoaded loaded
  unfolding load_each
  load_each-AllLoaded [] reg all h = subst AllLoaded (ground arith) all
  load_each-AllLoaded ((id, op) ∷ ops) reg all h =
      let next = λ (u : Unit {0}). load_each compile ops (insert id (with_id id op) reg) in
      let (u, p, h₁) =
        bind-eq-ok (check_patterns compile id op.params)
          (λ _. check_multipart compile id op >>= next) h in
      let (v, m, h₂) = bind-eq-ok (check_multipart compile id op) next h₁ in
      load_each-AllLoaded ops (insert id (with_id id op) reg)
        (insert-AllLoaded id (with_id id op) reg (with_id-IsLoaded id op p m) all) h₂

  form_free-IsLoaded :
      (op : Operation) → All HasPattern op.params → op.multipart ≡ none → IsLoaded op.id op
  form_free-IsLoaded op p e = record {
    own_id = refl;
    patterns = p;
    multipart = λ mp h. absurd (ground arith);
  }

  empty-AllLoaded : AllLoaded []
  unfolding lookup
  empty-AllLoaded id op h = absurd (ground arith)

  built_in-AllLoaded : AllLoaded (register_built_in [])
  built_in-AllLoaded =
      insert-AllLoaded (codes "pg.query") pg_query _
        (form_free-IsLoaded pg_query (inl refl, (inl refl, (inl refl, tt))) refl)
        (insert-AllLoaded (codes "jira.status") jira_status _
          (form_free-IsLoaded jira_status (inl refl, tt) refl)
          (insert-AllLoaded (codes "jira.comment") jira_comment _
            (form_free-IsLoaded jira_comment (inl refl, (inl refl, tt)) refl)
            (insert-AllLoaded (codes "jira.create") jira_create _
              (form_free-IsLoaded jira_create (inl refl, (inl refl, (inl refl, (inl refl, tt))))
                refl)
              (insert-AllLoaded (codes "jira.search") jira_search []
                (form_free-IsLoaded jira_search (inl refl, (inl refl, tt)) refl) empty-AllLoaded))))

  or_built_in-AllLoaded : (reg : Map Operation) → AllLoaded reg → AllLoaded (or_built_in reg)
  or_built_in-AllLoaded [] all = built_in-AllLoaded
  or_built_in-AllLoaded (op ∷ ops) all = all

  -- In a registry that `NewRegistry` returns, with a file or without, each operation that is found
  -- under an id has this id, its patterns compile, and an upload form names a field and declared
  -- parameters and stands without a body template.
  pub new_registry-AllLoaded :
      (ops : Option (Map Operation)) (reg : Map Operation)
      → new_registry compile ops ≡ ok reg
      → AllLoaded reg
  unfolding new_registry
  new_registry-AllLoaded none reg h = subst AllLoaded (ground arith) built_in-AllLoaded
  new_registry-AllLoaded (some ops) reg h =
      let (loaded, l, last) =
        bind-eq-ok (load_each compile ops []) (λ loaded. ok (or_built_in loaded)) h in
      let same : or_built_in loaded ≡ reg = ground arith in
      subst AllLoaded same
        (or_built_in-AllLoaded loaded (load_each-AllLoaded ops [] empty-AllLoaded l))
