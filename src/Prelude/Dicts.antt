-- ===== src/Prelude/Dicts.antt =====
-- Dictionaries as lists of entries, and chains of optional results.

use mathlib.Core.Option.{Option, none, some}
use mathlib.Core.List.{List, [], ◌∷◌}
use aipy.Prelude.Tests.{Eq, ◌==◌, if◌then◌else◌}

-- `d.get(k)`
abbrev pub get {ℓ κ} : {K : Type ℓ} {V : Type κ} ⦃e : Eq K⦄ → List (K × V) → K → Option V
get [] k = none
get ((j, v) ∷ d) k = let rest = get d k in if j == k then some v else rest

-- `d.get(k, default)`
abbrev pub get_or {ℓ} : {A : Type ℓ} → Option A → A → A
get_or none d = d
get_or (some a) d = a
