-- ===== src/Cache/Controllers.antt =====
-- internal/cache/controllers_cache.go: the running controllers. Contexts and channels are of a type
-- of Go's, `Handle`.
pub mod Laws
use naavik.Common.{String, List, [], ◌∷◌, Option, none, some}
use naavik.Common.Table
use naavik.Common.Table.{Table}
use naavik.Common.Text.{to_lower}

-- A nil channel is `none`.
pub record ControllerContext (Handle : Type 0) : Type 0 where
  pub worker_ctx : List Handle
  pub stop_ch : Option Handle

abbrev pub Cache : Type 0 → Type 0
Cache Handle = Table (ControllerContext Handle)

abbrev context_or_zero :
    {Handle : Type 0} → Option (ControllerContext Handle) → ControllerContext Handle
context_or_zero none = record { worker_ctx = []; stop_ch = none }
context_or_zero (some context) = context

module _ {Handle : Type 0} where
  unfoldable pub register : Cache Handle → String → ControllerContext Handle → Cache Handle
  register c name context = Table.set c (to_lower name) context

  unfoldable pub de_register : Cache Handle → String → Cache Handle
  de_register c name = Table.delete c (to_lower name)

  -- `List`, which copies the map
  list_into : Cache Handle → Cache Handle → Cache Handle
  list_into copy [] = copy
  list_into copy ((name, context) ∷ c) = list_into (Table.set copy name context) c

  unfoldable pub list_all : Cache Handle → Cache Handle
  unfolding list_into
  list_all c = list_into [] c

  unfoldable pub get_stop_ch : Cache Handle → String → ControllerContext Handle
  get_stop_ch c name = context_or_zero (Table.get c (to_lower name))

  unfoldable pub reset : Cache Handle → Cache Handle
  reset c = []
