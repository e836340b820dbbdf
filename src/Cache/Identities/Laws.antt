-- ===== src/Cache/Identities/Laws.antt =====
-- The cache as a relation between identities and clusters.
use naavik.Common.{String, not, ◌≡◌, refl, ◌&&◌, ◌||◌, arith, ◌==◌, eq_iff, Option-cases, inl, inr}
use naavik.Common.Table
use naavik.Common.Table.{get-set}
use naavik.Common.Text.{to_lower}
use naavik.Set
use naavik.Set.Laws.{has-add, has-delete, has-new_set, listed, listed-list_items}
use naavik.Cache.Identities.{
  Cache, add_at, delete_at, items_of, add_cluster_to_identity, delete_cluster_from_identity,
  get_clusters_for_identity, is_cluster_present_in_identity,
}

-- An addition relates its identity and its cluster, in any case, and nothing else.
pub is_cluster_present_in_identity-add :
    (c : Cache) (id cl id' cl' : String)
    → is_cluster_present_in_identity (add_cluster_to_identity c id cl) id' cl' ≡ (
        to_lower id == to_lower id' && to_lower cl == to_lower cl'
        || is_cluster_present_in_identity c id' cl')
unfolding is_cluster_present_in_identity add_cluster_to_identity
is_cluster_present_in_identity-add c id cl id' cl' =
    elim (Option-cases (Table.get c (to_lower id))) [
      | inl e ↦
          rw (e, add_at, get-set)
            (ground (
              arith,
              eq_iff (to_lower id) (to_lower id'),
              has-add Set.new_set (to_lower cl) (to_lower cl'),
              has-new_set (to_lower cl'),
            ))
      | inr (s, e) ↦
          rw (e, add_at, get-set)
            (ground
              (arith, eq_iff (to_lower id) (to_lower id'), has-add s (to_lower cl) (to_lower cl')))
    ]

-- A removal ends the relation of its identity and its cluster, in any case, and nothing else.
pub is_cluster_present_in_identity-delete :
    (c : Cache) (id cl id' cl' : String)
    → is_cluster_present_in_identity (delete_cluster_from_identity c id cl) id' cl' ≡ (
        not (to_lower id == to_lower id' && to_lower cl == to_lower cl')
        && is_cluster_present_in_identity c id' cl')
unfolding is_cluster_present_in_identity delete_cluster_from_identity
is_cluster_present_in_identity-delete c id cl id' cl' =
    elim (Option-cases (Table.get c (to_lower id))) [
      | inl e ↦ rw (e, delete_at) (ground (arith, eq_iff (to_lower id) (to_lower id')))
      | inr (s, e) ↦
          rw (e, delete_at, get-set)
            (ground (
              arith,
              eq_iff (to_lower id) (to_lower id'),
              has-delete s (to_lower cl) (to_lower cl'),
            ))
    ]

-- The listing of an identity's clusters holds exactly the clusters that are present in it.
pub listed-get_clusters_for_identity :
    (c : Cache) (id cl : String)
    → listed (get_clusters_for_identity c id) (to_lower cl) ≡ is_cluster_present_in_identity c id cl
unfolding get_clusters_for_identity is_cluster_present_in_identity
listed-get_clusters_for_identity c id cl = elim (Option-cases (Table.get c (to_lower id))) [
  | inl e ↦ rw (e, items_of) refl
  | inr (s, e) ↦ rw (e, items_of) (listed-list_items s (to_lower cl))
]
