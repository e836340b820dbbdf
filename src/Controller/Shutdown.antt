-- ===== src/Controller/Shutdown.antt =====
-- internal/controller/controller.go: `StopAllControllers`, which closes the stop channel of every
-- registered controller and waits for the workers. The goroutines run in any order: the model takes
-- the order of the cache. Channels are numbered.
use naavik.Common.{
  ℕ, Bool, true, false, not, ◌&&◌, ◌||◌, List, [], ◌∷◌, Option, none, some, ◌≡◌, refl, sym, ◌∙◌,
  arith, nat_eq, is_some, Option-cases, inl, inr,
}
use naavik.Cache.Controllers.{Cache}
use naavik.RemoteClusters.Controllers.{close_channel, is_closed}

abbrev close_next : Option (List ℕ) → Option ℕ → Option (List ℕ)
close_next none ch = none
close_next (some closed) ch = close_channel closed ch

-- The channels that are closed after it; `none` is a panic.
unfoldable pub stop_all_controllers : List ℕ → Cache ℕ → Option (List ℕ)
stop_all_controllers closed [] = some closed
stop_all_controllers closed ((name, context) ∷ c) =
    close_next (stop_all_controllers closed c) context.stop_ch

abbrev of_channel : Option ℕ → ℕ → Bool
of_channel none ch = false
of_channel (some c) ch = nat_eq c ch

-- Whether a channel is that of a registered controller.
abbrev pub has_channel : Cache ℕ → ℕ → Bool
has_channel [] ch = false
has_channel ((name, context) ∷ c) ch = of_channel context.stop_ch ch || has_channel c ch

abbrev is_fresh : List ℕ → Cache ℕ → Option ℕ → Bool
is_fresh closed c none = false
is_fresh closed c (some ch) = not (is_closed closed ch) && not (has_channel c ch)

-- Whether every controller has a channel that is open, and its own.
abbrev pub have_own_channels : List ℕ → Cache ℕ → Bool
have_own_channels closed [] = true
have_own_channels closed ((name, context) ∷ c) =
    is_fresh closed c context.stop_ch && have_own_channels closed c

abbrev pub closed_after : List ℕ → Option (List ℕ) → List ℕ
closed_after closed none = closed
closed_after closed (some l) = l

close_next-cases :
    (before closed : List ℕ) (c : Cache ℕ) (stop_ch : Option ℕ) (ch : ℕ)
    → ((d : ℕ) → is_closed before d ≡ (is_closed closed d || has_channel c d))
    → (is_some (close_channel before stop_ch) ≡ is_fresh closed c stop_ch)
      × (is_fresh closed c stop_ch ≡ true
          → is_closed (closed_after closed (close_channel before stop_ch)) ch
            ≡ (is_closed closed ch || (of_channel stop_ch ch || has_channel c ch)))
close_next-cases before closed c none ch h = (refl, λ e. absurd (ground arith))
close_next-cases before closed c (some d) ch h =
    (ground (arith, h d), λ e. ground (arith, h ch, h d))

-- `StopAllControllers` panics unless every registered controller has an open stop channel of its own,
-- and then the channels that are closed after it are those that were and those of the controllers.
pub stop_all_controllers-closes :
    (closed : List ℕ) (c : Cache ℕ)
    → (is_some (stop_all_controllers closed c) ≡ have_own_channels closed c)
      × (have_own_channels closed c ≡ true
          → (ch : ℕ)
          → is_closed (closed_after closed (stop_all_controllers closed c)) ch
            ≡ (is_closed closed ch || has_channel c ch))
unfolding stop_all_controllers
stop_all_controllers-closes closed [] = (refl, λ e ch. ground arith)
stop_all_controllers-closes closed ((name, context) ∷ c) =
    let (returns, closes) = stop_all_controllers-closes closed c in
    elim (Option-cases (stop_all_controllers closed c)) [
      | inl panicked ↦ rw panicked (ground arith, λ e ch. absurd (ground arith))
      | inr (before, e) ↦
          let own : have_own_channels closed c ≡ true = sym returns ∙ rw e refl in
          let cases = λ (ch : ℕ).
            close_next-cases before closed c context.stop_ch ch (λ d. rw e at (closes own d)) in
          rw (e, own) (ground (arith, (cases 0).0), λ fresh ch. (cases ch).1 (ground arith))
    ]
