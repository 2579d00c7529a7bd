-- ===== src/Base/Maps.antt =====
-- A memory or a map as a function, and its update at one key.
use Prim.Native.Nat.{ℕ}
use network_lib.Base.Tests.{◌==◌, if◌then◌else◌}

abbrev pub update {ℓ} : {A : Type ℓ} → (ℕ → A) → ℕ → A → ℕ → A
update f k v j = if j == k then v else f j
