-- ===== src/Cache/Controllers/Laws.antt =====
-- What the controller cache promises to its readers.
use naavik.Common.{String, none, [], ◌∷◌, ◌≡◌, refl, arith, ◌==◌, eq_iff, if◌then◌else◌, is_some}
use naavik.Common.Table
use naavik.Common.Table.{get-set, get-delete}
use naavik.Common.Table.Laws.{IsDistinct}
use naavik.Common.Text.{to_lower}
use naavik.Cache.Controllers.{
  ControllerContext, Cache, context_or_zero, register, de_register, list_into, list_all,
  get_stop_ch,
}

module _ {Handle : Type 0} where
  -- After `Register` and then `DeRegister`, `GetStopCh` returns the zero context for the name that
  -- was removed, what was registered for the other name, and what it returned before for the rest,
  -- names being in any case.
  pub get_stop_ch-register-de_register :
      (c : Cache Handle) (added removed read : String) (context : ControllerContext Handle)
      → get_stop_ch (de_register (register c added context) removed) read ≡ (
          if to_lower removed == to_lower read
          then context_or_zero none
          else if to_lower added == to_lower read
          then context
          else get_stop_ch c read)
  unfolding get_stop_ch de_register register
  get_stop_ch-register-de_register c added removed read context = ground (
    arith,
    get-delete (Table.set c (to_lower added) context) (to_lower removed) (to_lower read),
    get-set c (to_lower added) (to_lower read) context,
  )

  get-list_into :
      (copy c : Cache Handle) (name : String)
      → IsDistinct c
      → Table.get (list_into copy c) name
        ≡ (if is_some (Table.get c name) then Table.get c name else Table.get copy name)
  unfolding list_into Table.get
  get-list_into copy [] name h = refl
  get-list_into copy ((k, context) ∷ c) name (fresh, h) = ground (
    arith,
    eq_iff k name,
    get-set copy k name context,
    get-list_into (Table.set copy k context) c name h,
  )

  -- The map that `List` returns holds what the cache holds.
  pub get-list_all :
      (c : Cache Handle) (name : String)
      → IsDistinct c
      → Table.get (list_all c) name ≡ Table.get c name
  unfolding list_all Table.get
  get-list_all c name h = ground (arith, get-list_into [] c name h)
