-- ===== src/RemoteClusters/Handling.antt =====
-- What the handler of secrets promises to the readers of the cluster cache.
use naavik.Common.{
  String, true, false, Option, none, some, ◌≡◌, ◌⊎◌, refl, sym, ◌∙◌, arith, is_some, Option-cases,
  Bool-cases, inl, inr,
}
use naavik.Common.Table.{Table}
use naavik.Common.Table.Laws.{Entries}
use naavik.Meta.{ObjectMeta, is_sync_enabled}
use naavik.Options.{NaavikArgs}
use naavik.Resources.{Object}
use naavik.Cache.Clusters.{RemoteCluster, get_cluster}
use naavik.Handlers.{StatusChan}
use naavik.Handlers.Kept.{is_open, open_cases}
use naavik.RemoteClusters.{Loader, Clients}
use naavik.RemoteClusters.Resolve.{ConfigResolver}
use naavik.RemoteClusters.Controllers.{Registry}
use naavik.RemoteClusters.Secrets.{
  Handled, identifier_of, added, deleted, skipped, stop_all, add_all,
}
use naavik.RemoteClusters.Reads.{
  has_cluster, resolvable, get-stop_all, add_all-keeps, add_all-new, add_all-adds,
}

-- The registry after a handler that did not panic.
abbrev pub registry_of :
    {Clients : Type 0} → Registry Clients → Option (Handled Clients) → Registry Clients
registry_of r none = r
registry_of r (some handled) = handled.0

pub skipped-registry :
    {Clients : Type 0} (r next : Registry Clients) (ch : StatusChan)
    → is_open ch ≡ true
    → (is_some (skipped next ch) ≡ true) × (registry_of r (skipped next ch) ≡ next)
unfolding skipped
skipped-registry r next ch opened = let (sent, e) = open_cases ch opened in rw e (refl, refl)

module _ {Config ClientConfig RestConfig Client : Type 0}
    (loader : Loader Config ClientConfig RestConfig Client) (resolver : ConfigResolver)
    (params : NaavikArgs) where
  -- `Added` of a secret that is to be synchronised, on an open channel, does not panic. A cluster that
  -- was cached stays cached as it was, one that is cached after it and was not so before is of this
  -- secret and named in its data, and every cluster of the data that is resolved is cached.
  pub added-reads :
      (r : Registry (Clients ClientConfig Client)) (meta : ObjectMeta) (data_of : Table String)
      (ch : StatusChan)
      → is_open ch ≡ true
      → is_sync_enabled params meta ≡ true
      → let handled = added loader resolver params r (Object.secret meta data_of) ch in
        let after = (registry_of r handled).clusters in
        (is_some handled ≡ true)
        × ((k : String) (cluster : RemoteCluster (Clients ClientConfig Client))
            → get_cluster r.clusters k ≡ some cluster
            → get_cluster after k ≡ some cluster)
        × ((k : String) (cluster : RemoteCluster (Clients ClientConfig Client))
            → get_cluster after k ≡ some cluster
            → (get_cluster r.clusters k ≡ some cluster)
              ⊎ ((cluster.secret_identifier ≡ identifier_of meta) × (has_cluster data_of k ≡ true)))
        × Entries
            (λ cluster_id config.
              resolvable loader resolver params (identifier_of meta) cluster_id config ≡ true
              → is_some (get_cluster after cluster_id) ≡ true)
            data_of
  unfolding added
  added-reads r meta data_of ch opened sync =
      let next = add_all loader resolver params (identifier_of meta) r data_of in
      let (returns, same) = skipped-registry r next ch opened in
      rw sync (
        rw same (
          returns,
          λ k cluster h.
              add_all-keeps loader resolver params (identifier_of meta) k data_of r cluster h,
          λ k cluster h.
              add_all-new loader resolver params (identifier_of meta) k data_of r cluster h,
          add_all-adds loader resolver params (identifier_of meta) data_of r,
        ))

  -- A cluster that the data does not have is read as before.
  added-others :
      (r : Registry (Clients ClientConfig Client)) (meta : ObjectMeta) (data_of : Table String)
      (k : String)
      → has_cluster data_of k ≡ false
      → get_cluster (add_all loader resolver params (identifier_of meta) r data_of).clusters k
        ≡ get_cluster r.clusters k
  added-others r meta data_of k other =
      let after = (add_all loader resolver params (identifier_of meta) r data_of).clusters in
      elim (Option-cases (get_cluster after k)) [
        | inr (cluster, there) ↦
            elim (add_all-new loader resolver params (identifier_of meta) k data_of r cluster
              there) [
                | inl before ↦ there ∙ sym before
                | inr (secret, listed) ↦ absurd (ground arith)
              ]
        | inl absent ↦ elim (Option-cases (get_cluster r.clusters k)) [
          | inl before ↦ absent ∙ sym before
          | inr (cluster, before) ↦
              add_all-keeps loader resolver params (identifier_of meta) k data_of r cluster before
              ∙ sym before
        ]
      ]

  -- `Deleted` after `Added` of one secret that is to be synchronised, both on open channels, gives back
  -- what the cluster cache answered before, for a registry that had none of the secret's clusters.
  pub deleted-added :
      (r : Registry (Clients ClientConfig Client)) (meta : ObjectMeta) (data_of : Table String)
      (ch next_ch : StatusChan) (k : String)
      → is_open ch ≡ true
      → is_open next_ch ≡ true
      → is_sync_enabled params meta ≡ true
      → ((id : String) → has_cluster data_of id ≡ true → get_cluster r.clusters id ≡ none)
      → let there =
          registry_of r (added loader resolver params r (Object.secret meta data_of) ch) in
        let after = registry_of there (deleted there (Object.secret meta data_of) next_ch) in
        get_cluster after.clusters k ≡ get_cluster r.clusters k
  unfolding added deleted
  deleted-added r meta data_of ch next_ch k opened next_opened sync fresh =
      let there = add_all loader resolver params (identifier_of meta) r data_of in
      let gone = stop_all there data_of in
      rw sync (
        rw (skipped-registry r there ch opened).1 (
          rw (skipped-registry there gone next_ch next_opened).1 (
            get-stop_all data_of there k ∙ elim (Bool-cases (has_cluster data_of k)) [
              | inl listed ↦ rw listed (sym (fresh k listed))
              | inr other ↦ rw other (added-others r meta data_of k other)
            ])))
