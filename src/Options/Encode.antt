-- ===== src/Options/Encode.antt =====
-- Which entries the JSON objects of src/options.h have.
mod Entries
use statsig_cpp_core.Prelude.{
  ℕ, ◌<◌, ◌^◌, String, ◌≡◌, ◌≢◌, refl, ap, ◌∙◌, Bool, true, false, Option, none, some, List, [],
  ◌∷◌, Dict, ok, str_eq, ◌==◌, if◌then◌else◌, arith, inl, inr, Option-cases, Bool-cases, All,
  All-map,
}
use statsig_cpp_core.Json.{JsonApi, JsonLaws, is_object, is_some}
use statsig_cpp_core.Sticky.{get_opt}
use statsig_cpp_core.Sticky.RoundTrip.{uint64-Decodes}
use statsig_cpp_core.Options.{
  SpecAdapterConfig, StatsigOptionsBuilder, set_persistent_storage, set_observability_client,
  set_spec_adapter_config, adapter_to_json, base_to_json, flatten_adapter, options_to_json,
}
use statsig_cpp_core.Options.Encode.Entries.{
  adapter_keys, is_in, adapter_wins, find-options, wins-others, contains-options,
}

-- The ref as the options hold it.
abbrev pub ref_or_null : ℕ → Option ℕ
ref_or_null ref = if ref == 0 then none else some ref

-- The ref as the native side reads it.
abbrev pub ref_json : (api : JsonApi) → ℕ → api.Json
ref_json api ref = if ref == 0 then api.null else api.of_uint ref

module _ (api : JsonApi) (laws : JsonLaws api) where
  open api use {Json, of_bool, of_string, of_uint, of_object, of_optional, assign, find, get_uint64}

  -- Setting a data adapter changes the entries of the eight keys of the adapter only: for every
  -- other key, the options encode to the same entry with the adapter as without.
  pub adapter_keeps_options :
      (c : SpecAdapterConfig) (b : StatsigOptionsBuilder) (k : String)
      → is_in k adapter_keys ≡ false
      → find (options_to_json api (set_spec_adapter_config c b)) k
        ≡ find (options_to_json api (record b { spec_adapter = none })) k
  unfolding set_spec_adapter_config base_to_json
  adapter_keeps_options c b k h =
      rw
        (
          find-options api laws (set_spec_adapter_config c b) k,
          find-options api laws (record b { spec_adapter = none }) k,
        )
        (wins-others api laws c k _ h)

  adapter-some :
      (c : SpecAdapterConfig) (o : String → Option Json)
      → All (λ k. is_some (adapter_wins api laws (some c) k (o k)) ≡ true) adapter_keys
  adapter-some c o = (refl, (refl, (refl, (refl, (refl, (refl, (refl, (refl, tt))))))))

  adapter-none :
      (b : StatsigOptionsBuilder) → All (λ k. find (base_to_json api b) k ≡ none) adapter_keys
  unfolding base_to_json
  adapter-none b = (
    laws.find-of_object _ _,
    (
      laws.find-of_object _ _,
      (
        laws.find-of_object _ _,
        (
          laws.find-of_object _ _,
          (
            laws.find-of_object _ _,
            (laws.find-of_object _ _, (laws.find-of_object _ _, (laws.find-of_object _ _, tt))),
          ),
        ),
      ),
    ),
  )

  contains-adapter :
      (b : StatsigOptionsBuilder) (o : Option SpecAdapterConfig)
      → b.spec_adapter ≡ o
      → All (λ k. api.contains (options_to_json api b) k ≡ is_some o) adapter_keys
  contains-adapter b (some c) e =
      All-map (λ k. is_some (adapter_wins api laws (some c) k (find (base_to_json api b) k)) ≡ true)
        _
        (λ k h.
          contains-options api laws b k
          ∙ ap (λ a. is_some (adapter_wins api laws a k (find (base_to_json api b) k))) e
          ∙ h)
        adapter_keys (adapter-some c (λ k. find (base_to_json api b) k))
  contains-adapter b none e =
      All-map (λ k. find (base_to_json api b) k ≡ none) _
        (λ k h.
          contains-options api laws b k
          ∙ ap (λ a. is_some (adapter_wins api laws a k (find (base_to_json api b) k))) e
          ∙ ap is_some h)
        adapter_keys (adapter-none b)

  -- The options encode all eight keys of the data adapter, if one is set, and otherwise none of
  -- them.
  pub adapter_keys_complete :
      (b : StatsigOptionsBuilder)
      → All (λ k. api.contains (options_to_json api b) k ≡ is_some b.spec_adapter) adapter_keys
  adapter_keys_complete b = contains-adapter b b.spec_adapter refl

  get_opt_ref :
      (j : Json) (k : String) (o : Option ℕ)
      → find j k ≡ some (of_optional of_uint o)
      → ((n : ℕ) → o ≡ some n → n < 2 ^ 64)
      → get_opt api get_uint64 j k ≡ ok o
  unfolding get_opt
  get_opt_ref j k none e h = rw (e, get_opt, laws.of_optional-none of_uint, laws.kind-null) refl
  get_opt_ref j k (some n) e h =
      rw
        (
          e,
          get_opt,
          laws.of_optional-some of_uint n,
          (uint64-Decodes api laws n (h n refl)).0,
          (uint64-Decodes api laws n (h n refl)).1,
        )
        refl

  ref_or_null-lt : (ref : ℕ) → ref < 2 ^ 64 → (n : ℕ) → ref_or_null ref ≡ some n → n < 2 ^ 64
  ref_or_null-lt ref h n e = ground arith

  of_optional-ref : (ref : ℕ) → of_optional of_uint (ref_or_null ref) ≡ ref_json api ref
  of_optional-ref ref = elim (Bool-cases (ref == 0)) [
    | inl e ↦ rw e (laws.of_optional-none of_uint)
    | inr e ↦ rw e (laws.of_optional-some of_uint ref)
  ]

  find-base :
      (b : StatsigOptionsBuilder) (k : String) (v : Json)
      → is_in k adapter_keys ≡ false
      → find (base_to_json api b) k ≡ some v
      → find (options_to_json api b) k ≡ some v
  unfolding base_to_json
  find-base b k v h e = elim (Option-cases b.spec_adapter) [
    | inl n ↦ rw (find-options api laws b k, n) e
    | inr (c, n) ↦ rw (find-options api laws b k, n) (wins-others api laws c k _ h ∙ e)
  ]

  -- A storage and a client with refs in range reach the native side through the options, whichever
  -- is set first and whatever else is set: the options' JSON object has an entry for each, which
  -- is the ref, and null for one that is not registered, whose ref is 0, and which reads back as
  -- the ref or as unset.
  pub options_carry_refs :
      (storage client : ℕ) (b : StatsigOptionsBuilder)
      → storage < 2 ^ 64
      → client < 2 ^ 64
      → let b' = set_observability_client client (set_persistent_storage storage b) in
        (b' ≡ set_persistent_storage storage (set_observability_client client b))
        × (find (options_to_json api b') "persistent_storage_ref" ≡ some (ref_json api storage))
        × (find (options_to_json api b') "observability_client_ref" ≡ some (ref_json api client))
        × (get_opt api get_uint64 (options_to_json api b') "persistent_storage_ref"
            ≡ ok (ref_or_null storage))
        × (get_opt api get_uint64 (options_to_json api b') "observability_client_ref"
            ≡ ok (ref_or_null client))
  unfolding set_persistent_storage set_observability_client base_to_json
  options_carry_refs storage client b hs hc =
      let b' = set_observability_client client (set_persistent_storage storage b) in
      let at_storage = find-base b' "persistent_storage_ref" _ refl (laws.find-of_object _ _) in
      let at_client = find-base b' "observability_client_ref" _ refl (laws.find-of_object _ _) in
      (
        refl,
        at_storage ∙ ap some (of_optional-ref storage),
        at_client ∙ ap some (of_optional-ref client),
        get_opt_ref _ _ (ref_or_null storage) at_storage (ref_or_null-lt storage hs),
        get_opt_ref _ _ (ref_or_null client) at_client (ref_or_null-lt client hc),
      )

  pub options_carry_storage :
      (storage : ℕ) (b : StatsigOptionsBuilder)
      → storage ≢ 0
      → storage < 2 ^ 64
      → get_opt api get_uint64
          (options_to_json api (set_persistent_storage storage b))
          "persistent_storage_ref"
        ≡ ok (some storage)
  unfolding set_persistent_storage base_to_json
  options_carry_storage storage b n h =
      get_opt_ref _ _ (ref_or_null storage)
        (find-base (set_persistent_storage storage b) "persistent_storage_ref" _ refl
          (laws.find-of_object _ _))
        (ref_or_null-lt storage h)
      ∙ ap ok (ground arith)
