-- ===== src/Cache/Dependencies/Laws.antt =====
-- The dependency cache as two relations between identities.
use naavik.Common.{
  String, Bool, true, not, [], ◌∷◌, ◌≡◌, ◌≢◌, refl, ◌&&◌, ◌||◌, arith, ◌==◌, eq_iff, eq_refl,
  if◌then◌else◌, Bool-cases, Option-cases, inl, inr, length, nat_eq,
}
use naavik.Common.Table
use naavik.Common.Table.{Table, get-set, get-delete}
use naavik.Common.Table.Laws.{Entries, Entries-set, Entries-delete}
use naavik.Common.Text.{to_lower}
use naavik.Set
use naavik.Set.{Set}
use naavik.Set.Laws.{has-add, has-delete, has-new_set, has_of_size_zero, listed, listed-list_items}
use naavik.Cache.Dependencies.{
  Cache, relate, unrelate, keep_set, has_in, items_of, add_dependency_to_identity,
  add_dependent_to_identity, delete_dependency_from_identity, delete_dependent_from_identity,
  get_dependencies_for_identity, get_dependents_for_identity, is_dependent_for_identity,
  get_total_dependencies, visited, ranged_dependencies,
}

-- The relation that a map of sets holds.
abbrev related : Table Set → String → String → Bool
related m a b = has_in (Table.get m a) b

related-relate :
    (m : Table Set) (a b a' b' : String)
    → related (relate m a b) a' b' ≡ (a == a' && b == b' || related m a' b')
unfolding relate
related-relate m a b a' b' = elim (Option-cases (Table.get m a)) [
  | inl e ↦
      rw (e, relate, get-set)
        (ground (arith, eq_iff a a', has-add Set.new_set b b', has-new_set b'))
  | inr (s, e) ↦ rw (e, relate, get-set) (ground (arith, eq_iff a a', has-add s b b'))
]

related-keep_set :
    (m : Table Set) (a : String) (s : Set) (a' b' : String)
    → related (keep_set m a s) a' b' ≡ (if a == a' then Set.has s b' else related m a' b')
unfolding keep_set
related-keep_set m a s a' b' = elim (Bool-cases (nat_eq (Set.size s) 0)) [
  | inl e ↦
      let zero_size : Set.size s ≡ 0 = ground arith in
      rw (e, get-delete) (ground (arith, has_of_size_zero s b' zero_size))
  | inr e ↦ rw (e, get-set) (ground arith)
]

related-unrelate :
    (m : Table Set) (a b a' b' : String)
    → related (unrelate m a b) a' b' ≡ (not (a == a' && b == b') && related m a' b')
unfolding unrelate
related-unrelate m a b a' b' = elim (Option-cases (Table.get m a)) [
  | inl e ↦ rw (e, unrelate) (ground (arith, eq_iff a a'))
  | inr (s, e) ↦ rw (e, unrelate, related-keep_set) (ground (arith, eq_iff a a', has-delete s b b'))
]

listed-items_of :
    (m : Table Set) (a b : String) → listed (items_of (Table.get m a)) b ≡ related m a b
unfolding items_of
listed-items_of m a b = elim (Option-cases (Table.get m a)) [
  | inl e ↦ rw e refl
  | inr (s, e) ↦ rw e (listed-list_items s b)
]

-- After `AddDependencyToIdentity`, the identity depends on the dependency, in any case; whatever
-- depended before still does, and nothing else does.
pub is_dependent_for_identity-add :
    (c : Cache) (id dep id' dep' : String)
    → is_dependent_for_identity (add_dependency_to_identity c id dep) id' dep' ≡ (
        to_lower id == to_lower id' && to_lower dep == to_lower dep'
        || is_dependent_for_identity c id' dep')
unfolding is_dependent_for_identity add_dependency_to_identity
is_dependent_for_identity-add c id dep id' dep' =
    related-relate c.dependencies (to_lower id) (to_lower dep) (to_lower id') (to_lower dep')

-- After `DeleteDependencyFromIdentity`, that one pair, in any case, no longer depends, and every
-- other pair is as before.
pub is_dependent_for_identity-delete :
    (c : Cache) (id dep id' dep' : String)
    → is_dependent_for_identity (delete_dependency_from_identity c id dep) id' dep' ≡ (
        not (to_lower id == to_lower id' && to_lower dep == to_lower dep')
        && is_dependent_for_identity c id' dep')
unfolding is_dependent_for_identity delete_dependency_from_identity
is_dependent_for_identity-delete c id dep id' dep' =
    related-unrelate c.dependencies (to_lower id) (to_lower dep) (to_lower id') (to_lower dep')

-- `GetDependenciesForIdentity` lists exactly what `IsDependentForIdentity` answers for.
pub listed-get_dependencies_for_identity :
    (c : Cache) (id dep : String)
    → listed (get_dependencies_for_identity c id) (to_lower dep)
      ≡ is_dependent_for_identity c id dep
unfolding get_dependencies_for_identity is_dependent_for_identity
listed-get_dependencies_for_identity c id dep =
    listed-items_of c.dependencies (to_lower id) (to_lower dep)

-- Whether an identity, in any case, is among the dependents that are listed.
abbrev pub listed_dependent : Cache → String → String → Bool
listed_dependent c id dep = listed (get_dependents_for_identity c id) (to_lower dep)

-- After `AddDependentToIdentity`, the identity's dependents are listed with the new one, in any
-- case, and every other listing is as before.
pub get_dependents_for_identity-add :
    (c : Cache) (id dep id' dep' : String)
    → listed_dependent (add_dependent_to_identity c id dep) id' dep' ≡ (
        to_lower id == to_lower id' && to_lower dep == to_lower dep' || listed_dependent c id' dep')
unfolding get_dependents_for_identity add_dependent_to_identity
get_dependents_for_identity-add c id dep id' dep' = ground (
  arith,
  listed-items_of (relate c.dependents (to_lower id) (to_lower dep)) (to_lower id') (to_lower dep'),
  listed-items_of c.dependents (to_lower id') (to_lower dep'),
  related-relate c.dependents (to_lower id) (to_lower dep) (to_lower id') (to_lower dep'),
)

-- After `DeleteDependentFromIdentity`, that one dependent, in any case, is no longer listed, and
-- every other listing is as before.
pub get_dependents_for_identity-delete :
    (c : Cache) (id dep id' dep' : String)
    → listed_dependent (delete_dependent_from_identity c id dep) id' dep' ≡ (
        not (to_lower id == to_lower id' && to_lower dep == to_lower dep')
        && listed_dependent c id' dep')
unfolding get_dependents_for_identity delete_dependent_from_identity
get_dependents_for_identity-delete c id dep id' dep' = ground (
  arith,
  listed-items_of (unrelate c.dependents (to_lower id) (to_lower dep)) (to_lower id')
      (to_lower dep'),
  listed-items_of c.dependents (to_lower id') (to_lower dep'),
  related-unrelate c.dependents (to_lower id) (to_lower dep) (to_lower id') (to_lower dep'),
)

-- No identity is kept without a dependency, nor without a dependent.
pub record IsTrimmed (c : Cache) : Type 0 where
  pub dependencies : Entries (λ k s. Set.size s ≢ 0) c.dependencies
  pub dependents : Entries (λ k s. Set.size s ≢ 0) c.dependents

size-add_ne : (s : Set) (a : String) → Set.size (Set.add s a) ≢ 0
size-add_ne s a = λ z. ground (arith, has-add s a a, eq_refl a, has_of_size_zero (Set.add s a) a z)

relate-trimmed :
    (m : Table Set) (a b : String)
    → Entries (λ k s. Set.size s ≢ 0) m
    → Entries (λ k s. Set.size s ≢ 0) (relate m a b)
unfolding relate
relate-trimmed m a b h = elim (Option-cases (Table.get m a)) [
  | inl e ↦ rw (e, Entries) (Entries-set _ m a _ (size-add_ne Set.new_set b) h)
  | inr (s, e) ↦ rw (e, Entries) (Entries-set _ m a _ (size-add_ne s b) h)
]

unrelate-trimmed :
    (m : Table Set) (a b : String)
    → Entries (λ k s. Set.size s ≢ 0) m
    → Entries (λ k s. Set.size s ≢ 0) (unrelate m a b)
unfolding unrelate keep_set
unrelate-trimmed m a b h = elim (Option-cases (Table.get m a)) [
  | inl e ↦ rw (e, Entries) h
  | inr (s, e) ↦
      rw (e, Entries)
        (elim (Bool-cases (nat_eq (Set.size (Set.delete s b).0) 0)) [
          | inl z ↦ rw (z, Entries) (Entries-delete _ m a h)
          | inr z ↦ rw (z, Entries) (Entries-set _ m a _ (ground arith) h)
        ])
]

-- Both additions and both removals keep every cached set non-empty: an identity whose last
-- dependency or dependent is removed goes from its map.
pub updates-IsTrimmed :
    (c : Cache) (id other : String)
    → IsTrimmed c
    → IsTrimmed (add_dependency_to_identity c id other)
      × IsTrimmed (add_dependent_to_identity c id other)
      × IsTrimmed (delete_dependency_from_identity c id other)
      × IsTrimmed (delete_dependent_from_identity c id other)
unfolding add_dependency_to_identity add_dependent_to_identity delete_dependency_from_identity
    delete_dependent_from_identity
updates-IsTrimmed c id other h = (
  record {
    dependencies = relate-trimmed c.dependencies (to_lower id) (to_lower other) h.dependencies;
    dependents = h.dependents;
  },
  record {
    dependencies = h.dependencies;
    dependents = relate-trimmed c.dependents (to_lower id) (to_lower other) h.dependents;
  },
  record {
    dependencies = unrelate-trimmed c.dependencies (to_lower id) (to_lower other) h.dependencies;
    dependents = h.dependents;
  },
  record {
    dependencies = h.dependencies;
    dependents = unrelate-trimmed c.dependents (to_lower id) (to_lower other) h.dependents;
  },
)

length-visited : (m : Table Set) → length (visited (λ identity items. true) m) ≡ length m
unfolding visited
length-visited [] = refl
length-visited ((k, s) ∷ m) = ground (arith, length-visited m)

-- A `RangedDependencies` whose callback never stops visits as many identities as
-- `GetTotalDependencies` counts.
pub length-ranged_dependencies :
    (c : Cache) → length (ranged_dependencies (λ identity items. true) c) ≡ get_total_dependencies c
unfolding ranged_dependencies get_total_dependencies
length-ranged_dependencies c = length-visited c.dependencies
