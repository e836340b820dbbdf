-- ===== src/TrafficUtil/Laws.antt =====
-- When a TrafficConfig counts as disabled.
use naavik.Common.{◌≡◌, true, arith, eq_iff, ◌⊎◌, ◌↔◌}
use naavik.Common.Types.{is_disabled_key, is_true}
use naavik.Meta.{at}
use naavik.Resources.{TrafficConfig}
use naavik.TrafficUtil.{is_disabled}

-- A TrafficConfig is disabled exactly when its label is "true", or when it has no label text and
-- its annotation is "true": a label with any other text overrides the annotation.
pub is_disabled_iff :
    (tc : TrafficConfig)
    → (is_disabled tc ≡ true) ↔ (
        (at tc.meta.labels is_disabled_key ≡ is_true)
        ⊎ ((at tc.meta.labels is_disabled_key ≡ "")
            × (at tc.meta.annotations is_disabled_key ≡ is_true)))
unfolding is_disabled
is_disabled_iff tc = ground (
  arith,
  eq_iff (at tc.meta.labels is_disabled_key) "",
  eq_iff (at tc.meta.labels is_disabled_key) is_true,
  eq_iff (at tc.meta.annotations is_disabled_key) "",
  eq_iff (at tc.meta.annotations is_disabled_key) is_true,
  eq_iff is_true "",
)
