-- ===== src/Handlers/Dependency.antt =====
-- internal/handler/dependency/dependency_handler.go.
use naavik.Common.{String, not, List, [], ◌∷◌, Option, none, some, ◌==◌, if◌then◌else◌}
use naavik.Common.Table
use naavik.Common.Table.{Table}
use naavik.Options.{is_cache_warmed_up}
use naavik.Resources
use naavik.Resources.{Object}
use naavik.Cache.Dependencies
use naavik.Cache.Dependencies.{add_dependency_to_identity, add_dependent_to_identity}
use naavik.Handlers.{Caches, Setting, StatusChan, Trail, Outcome, finish, start, on_cast}
use naavik.Handlers.TrafficConfig.{trigger_traffic_config_handler_for_identity, finish_after}

abbrev pub as_dependency : Object → Option Resources.Dependency
as_dependency (Object.dependency d) = some d
as_dependency _ = none

-- The loop of `Added` and `Updated` over the destinations.
unfoldable pub add_destinations : Dependencies.Cache → String → List String → Dependencies.Cache
add_destinations c source [] = c
add_destinations c source (destination ∷ destinations) =
    add_destinations
      (add_dependent_to_identity (add_dependency_to_identity c source destination) destination
        source)
      source destinations

abbrev pub with_destinations : Caches → Resources.Dependency → Caches
with_destinations caches d = record caches {
  dependencies = add_destinations caches.dependencies d.source d.destinations;
}

unfoldable pub added : Caches → Object → StatusChan → Option Outcome
unfolding add_destinations
added caches obj ch = on_cast (as_dependency obj) (finish caches (start ch)) (λ d.
    if d.source == ""
    then finish caches (start ch)
    else finish (with_destinations caches d) (start ch))

-- `newDestinations`: the keys of a map
put_all : Table (Unit {0}) → List String → Table (Unit {0})
put_all m [] = m
put_all m (destination ∷ destinations) = put_all (Table.set m destination tt) destinations

remove_all : Table (Unit {0}) → List String → Table (Unit {0})
remove_all m [] = m
remove_all m (destination ∷ destinations) = remove_all (Table.delete m destination) destinations

abbrev old_destinations : Option Resources.Dependency → List String
old_destinations none = []
old_destinations (some d) = d.destinations

unfoldable pub new_destinations : Resources.Dependency → Option Resources.Dependency → List String
unfolding put_all remove_all
new_destinations d old = Table.keys (remove_all (put_all [] d.destinations) (old_destinations old))

abbrev pub trigger_next : Setting → Caches → String → Option Trail → Option Trail
trigger_next setting caches identity none = none
trigger_next setting caches identity (some trail) =
    trigger_traffic_config_handler_for_identity setting caches identity trail

unfoldable pub trigger_all : Setting → Caches → List String → Option Trail → Option Trail
trigger_all setting caches [] trail = trail
trigger_all setting caches (identity ∷ identities) trail =
    trigger_all setting caches identities (trigger_next setting caches identity trail)

-- No new destination is no turn of the loop, so the early return of the code needs no clause.
unfoldable pub dependency_updated :
    Setting
    → Caches
    → Resources.Dependency
    → Option Resources.Dependency
    → StatusChan
    → Option Outcome
unfolding add_destinations new_destinations trigger_all
dependency_updated setting caches d old ch =
    if d.source == ""
    then finish caches (start ch)
    else if not (is_cache_warmed_up setting.params setting.elapsed)
    then finish (with_destinations caches d) (start ch)
    else finish_after (with_destinations caches d) (
        trigger_all setting (with_destinations caches d) (new_destinations d old) (some (start ch)))

unfoldable pub updated : Setting → Caches → Object → Object → StatusChan → Option Outcome
unfolding dependency_updated
updated setting caches new_obj old_obj ch =
    on_cast (as_dependency new_obj) (finish caches (start ch))
      (λ d. dependency_updated setting caches d (as_dependency old_obj) ch)

unfoldable pub deleted : Caches → Object → StatusChan → Option Outcome
deleted caches obj ch = finish caches (start ch)
