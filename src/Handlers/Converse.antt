-- ===== src/Handlers/Converse.antt =====
-- The dependency handler keeps an identity's dependents in step with its dependencies.
use naavik.Handlers.Effects.{caches_after, caches_after-finish, caches_after-finish_after}
use naavik.Common.{
  String, true, List, [], ◌∷◌, Option, some, ◌≡◌, refl, arith, ◌==◌, if◌then◌else◌, Bool-cases, inl,
  inr,
}
use naavik.Options.{is_cache_warmed_up}
use naavik.Resources
use naavik.Resources.{Object}
use naavik.Cache.Dependencies
use naavik.Cache.Dependencies.{
  add_dependency_to_identity, add_dependent_to_identity, is_dependent_for_identity,
  get_dependents_for_identity,
}
use naavik.Cache.Dependencies.Laws.{
  is_dependent_for_identity-add, get_dependents_for_identity-add, listed_dependent,
}
use naavik.Handlers.{Caches, Setting, StatusChan, start}
use naavik.Handlers.Kept.{is_open, holds-trigger_all}
use naavik.Handlers.Reports.{is_ready, trigger_config-ready}
use naavik.Handlers.Dependency
use naavik.Handlers.Dependency.{
  add_destinations, with_destinations, new_destinations, dependency_updated, as_dependency,
}

-- The two maps of the dependency cache are converse relations.
pub record IsConverse (c : Dependencies.Cache) : Type 0 where
  pub converse : (a b : String) → is_dependent_for_identity c a b ≡ listed_dependent c b a

is_dependent_for_identity-dependent :
    (c : Dependencies.Cache) (id dep a b : String)
    → is_dependent_for_identity (add_dependent_to_identity c id dep) a b
      ≡ is_dependent_for_identity c a b
unfolding is_dependent_for_identity add_dependent_to_identity
is_dependent_for_identity-dependent c id dep a b = refl

listed_dependent-dependency :
    (c : Dependencies.Cache) (id dep a b : String)
    → listed_dependent (add_dependency_to_identity c id dep) a b ≡ listed_dependent c a b
unfolding get_dependents_for_identity add_dependency_to_identity
listed_dependent-dependency c id dep a b = refl

pub add_destinations-IsConverse :
    (c : Dependencies.Cache) (source : String) (destinations : List String)
    → IsConverse c
    → IsConverse (add_destinations c source destinations)
unfolding add_destinations
add_destinations-IsConverse c source [] h = h
add_destinations-IsConverse c source (d ∷ destinations) h =
    let next = add_dependency_to_identity c source d in
    add_destinations-IsConverse (add_dependent_to_identity next d source) source destinations
      (record {
        converse = λ a b. ground (
          arith,
          h.converse a b,
          is_dependent_for_identity-add c source d a b,
          is_dependent_for_identity-dependent next d source a b,
          get_dependents_for_identity-add next d source b a,
          listed_dependent-dependency c source d b a,
        );
      })

caches_after-dependency_updated :
    (setting : Setting) (caches : Caches) (d : Resources.Dependency)
    (old : Option Resources.Dependency) (ch : StatusChan)
    → is_open ch ≡ true
    → caches_after caches (dependency_updated setting caches d old ch)
      ≡ (if d.source == "" then caches else with_destinations caches d)
unfolding dependency_updated
caches_after-dependency_updated setting caches d old ch h =
    let next = with_destinations caches d in
    elim (Bool-cases (d.source == "")) [
      | inl s ↦ rw s (caches_after-finish caches caches (start ch) h)
      | inr s ↦ rw s (elim (Bool-cases (is_cache_warmed_up setting.params setting.elapsed)) [
        | inl w ↦ rw w (
            caches_after-finish_after caches next _ (
              holds-trigger_all setting is_ready (trigger_config-ready setting) next
                (new_destinations d old) (some (start ch)) (ground arith)))
        | inr w ↦ rw w (caches_after-finish caches next (start ch) h)
      ])
    ]

caches_after-dependency_added :
    (caches : Caches) (d : Resources.Dependency) (ch : StatusChan)
    → is_open ch ≡ true
    → caches_after caches (Dependency.added caches (Object.dependency d) ch)
      ≡ (if d.source == "" then caches else with_destinations caches d)
unfolding Dependency.added
caches_after-dependency_added caches d ch h = elim (Bool-cases (d.source == "")) [
  | inl s ↦ rw s (caches_after-finish caches caches (start ch) h)
  | inr s ↦ rw s (caches_after-finish caches (with_destinations caches d) (start ch) h)
]

pub with_destinations-IsConverse :
    (caches : Caches) (d : Resources.Dependency)
    → IsConverse caches.dependencies
    → IsConverse (if d.source == "" then caches else with_destinations caches d).dependencies
with_destinations-IsConverse caches d v = elim (Bool-cases (d.source == "")) [
  | inl s ↦ rw s v
  | inr s ↦ rw s (add_destinations-IsConverse caches.dependencies d.source d.destinations v)
]

-- Each operation of the dependency handler, on Dependency objects and an open status channel, keeps
-- the two maps converse: an identity is listed as a dependent of exactly its dependencies.
pub dependency_handler-IsConverse :
    (setting : Setting) (caches : Caches) (d : Resources.Dependency) (old : Object)
    (ch : StatusChan)
    → is_open ch ≡ true
    → IsConverse caches.dependencies
    → let obj : Object = Object.dependency d in
      IsConverse (caches_after caches (Dependency.added caches obj ch)).dependencies
      × IsConverse (caches_after caches (Dependency.updated setting caches obj old ch)).dependencies
      × IsConverse (caches_after caches (Dependency.deleted caches obj ch)).dependencies
unfolding Dependency.updated Dependency.deleted
dependency_handler-IsConverse setting caches d old ch h v = (
  rw (caches_after-dependency_added caches d ch h) (with_destinations-IsConverse caches d v),
  rw (caches_after-dependency_updated setting caches d (as_dependency old) ch h)
      (with_destinations-IsConverse caches d v),
  rw (caches_after-finish caches caches (start ch) h) v,
)
