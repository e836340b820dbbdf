-- ===== src/EnvoyFilters/Laws.antt =====
-- The filters of a cluster after the calls are those that were requested.
use naavik.Common.{
  ap, ◌∙◌, String, Bool, false, not, ◌&&◌, ◌||◌, List, [], ◌∷◌, ◌++◌, Option, none, some, ◌≡◌, refl,
  arith, ◌==◌, eq_iff, if◌then◌else◌, is_some, is_empty,
}
use naavik.Common.Table
use naavik.Common.Table.{Table, get-set, get-delete}
use naavik.Common.Text.{to_lower}
use naavik.EnvoyFilters.{
  after_call, EnvoyFilter, FilterCall, create_envoy_filter, update_envoy_filter,
  delete_envoy_filter, check_if_present, create_envoy_filters, update_envoy_filters,
  delete_envoy_filters, present_in, absent_from, apply_envoy_filters,
}

module _ {Spec : Type 0} where
  -- A cluster's filters by name, in lower case as the API keeps names, after a call that succeeds.
  abbrev pub run_call : Table (EnvoyFilter Spec) → FilterCall Spec → Table (EnvoyFilter Spec)
  run_call m (create_envoy_filter f) = Table.set m (to_lower f.name) f
  run_call m (update_envoy_filter f) = Table.set m (to_lower f.name) f
  run_call m (delete_envoy_filter name namespace) = Table.delete m (to_lower name)

  abbrev pub run_calls :
      Table (EnvoyFilter Spec) → List (FilterCall Spec) → Table (EnvoyFilter Spec)
  run_calls m [] = m
  run_calls m (call ∷ calls) = run_calls (run_call m call) calls

  run_calls-append :
      (m : Table (EnvoyFilter Spec)) (k l : List (FilterCall Spec))
      → run_calls m (k ++ l) ≡ run_calls (run_calls m k) l
  run_calls-append m [] l = refl
  run_calls-append m (call ∷ k) l = run_calls-append (run_call m call) k l

  -- The last filter of a name, in lower case, if there is one; and else another.
  abbrev pub found_or :
      Option (EnvoyFilter Spec) → List (EnvoyFilter Spec) → String → Option (EnvoyFilter Spec)
  found_or other [] name = other
  found_or other (f ∷ filters) name =
      found_or (if to_lower f.name == name then some f else other) filters name

  abbrev pub named : List (EnvoyFilter Spec) → String → Bool
  named [] name = false
  named (f ∷ filters) name = to_lower f.name == name || named filters name

  check-named :
      (f : EnvoyFilter Spec) (filters : List (EnvoyFilter Spec))
      → check_if_present f filters ≡ named filters (to_lower f.name)
  unfolding check_if_present
  check-named f [] = refl
  check-named f (g ∷ filters) = ground (arith, check-named f filters)

  get-created :
      (fails : FilterCall Spec → Option String) (err : Option String) (m : Table (EnvoyFilter Spec))
      (l : List (EnvoyFilter Spec)) (name : String)
      → Table.get (run_calls m (create_envoy_filters fails err l).0) name
        ≡ found_or (Table.get m name) l name
  unfolding create_envoy_filters
  get-created fails err m [] name = refl
  get-created fails err m (f ∷ l) name =
      get-created fails (after_call err (fails (create_envoy_filter f)))
        (Table.set m (to_lower f.name) f) l name
      ∙ ap (λ o. found_or o l name) (get-set m (to_lower f.name) name f)

  get-updated :
      (fails : FilterCall Spec → Option String) (err : Option String) (m : Table (EnvoyFilter Spec))
      (l : List (EnvoyFilter Spec)) (name : String)
      → Table.get (run_calls m (update_envoy_filters fails err l).0) name
        ≡ found_or (Table.get m name) l name
  unfolding update_envoy_filters
  get-updated fails err m [] name = refl
  get-updated fails err m (f ∷ l) name =
      get-updated fails (after_call err (fails (update_envoy_filter f)))
        (Table.set m (to_lower f.name) f) l name
      ∙ ap (λ o. found_or o l name) (get-set m (to_lower f.name) name f)

  get-deleted :
      (fails : FilterCall Spec → Option String) (err : Option String) (m : Table (EnvoyFilter Spec))
      (l : List (EnvoyFilter Spec)) (name : String)
      → Table.get (run_calls m (delete_envoy_filters fails err l).0) name
        ≡ (if named l name then none else Table.get m name)
  unfolding delete_envoy_filters
  get-deleted fails err m [] name = refl
  get-deleted fails err m (f ∷ l) name =
      let failed = after_call err (fails (delete_envoy_filter f.name f.namespace)) in
      get-deleted fails failed (Table.delete m (to_lower f.name)) l name
      ∙ ground (arith, get-delete m (to_lower f.name) name)

  found_or-split :
      (others l : List (EnvoyFilter Spec)) (other : Option (EnvoyFilter Spec)) (name : String)
      → found_or other (absent_from others l) name
        ≡ (if named others name then other else found_or other l name)
  unfolding absent_from
  found_or-split others [] other name = ground arith
  found_or-split others (f ∷ l) other name = ground (
    arith,
    check-named f others,
    eq_iff (to_lower f.name) name,
    found_or-split others l other name,
    found_or-split others l (some f) name,
  )

  found_or-present :
      (others l : List (EnvoyFilter Spec)) (other : Option (EnvoyFilter Spec)) (name : String)
      → found_or other (present_in others l) name
        ≡ (if named others name then found_or other l name else other)
  unfolding present_in
  found_or-present others [] other name = ground arith
  found_or-present others (f ∷ l) other name = ground (
    arith,
    check-named f others,
    eq_iff (to_lower f.name) name,
    found_or-present others l other name,
    found_or-present others l (some f) name,
  )

  named-absent_from :
      (others l : List (EnvoyFilter Spec)) (name : String)
      → named (absent_from others l) name ≡ (named l name && not (named others name))
  unfolding absent_from
  named-absent_from others [] name = refl
  named-absent_from others (f ∷ l) name =
      ground (
        arith,
        check-named f others,
        eq_iff (to_lower f.name) name,
        named-absent_from others l name,
      )

  named-deleted :
      (requested existing : List (EnvoyFilter Spec)) (name : String)
      → named (if is_empty requested then existing else absent_from requested existing) name
        ≡ (named existing name && not (named requested name))
  named-deleted [] existing name = ground arith
  named-deleted (f ∷ requested) existing name = named-absent_from (f ∷ requested) existing name

  found_or-named :
      (l : List (EnvoyFilter Spec)) (a b : Option (EnvoyFilter Spec)) (name : String)
      → found_or a l name ≡ (if named l name then found_or b l name else a)
  found_or-named [] a b name = refl
  found_or-named (f ∷ l) a b name = ground (
    arith,
    found_or-named l a b name,
    found_or-named l (some f) b name,
    found_or-named l (some f) (some f) name,
  )

  -- For a listing of exactly the filters that a cluster holds, and calls that succeed, the cluster
  -- holds after `ApplyEnvoyFilters` exactly the requested filters: under each name the last one that
  -- was requested by it, in any case, and nothing under the other names. No error is returned,
  -- whichever calls the client reports as failed.
  pub apply_envoy_filters-exact :
      (fails : FilterCall Spec → Option String) (requested existing : List (EnvoyFilter Spec))
      (m : Table (EnvoyFilter Spec)) (name : String)
      → is_some (Table.get m name) ≡ named existing name
      → (Table.get (run_calls m (apply_envoy_filters fails requested existing).0) name
          ≡ found_or none requested name)
        × ((apply_envoy_filters fails requested existing).1 ≡ none)
  unfolding apply_envoy_filters
  apply_envoy_filters-exact fails requested existing m name listed =
      let created = create_envoy_filters fails none (absent_from existing requested) in
      let updated = update_envoy_filters fails none (present_in existing requested) in
      let deleted = if is_empty requested then existing else absent_from requested existing in
      (
        ap (λ t. Table.get t name)
              (run_calls-append m (created.0 ++ updated.0)
                  (delete_envoy_filters fails none deleted).0
                ∙ ap (λ t. run_calls t (delete_envoy_filters fails none deleted).0)
                    (run_calls-append m created.0 updated.0))
            ∙ ground (
              arith,
              get-deleted fails none (run_calls (run_calls m created.0) updated.0) deleted name,
              get-updated fails none (run_calls m created.0) (present_in existing requested) name,
              get-created fails none m (absent_from existing requested) name,
              named-deleted requested existing name,
              found_or-present existing requested
                  (found_or (Table.get m name) (absent_from existing requested) name) name,
              found_or-split existing requested (Table.get m name) name,
              found_or-named requested (Table.get m name) none name,
              found_or-named requested none none name,
            ),
        refl,
      )
