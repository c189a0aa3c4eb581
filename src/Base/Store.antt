-- ===== src/Base/Store.antt =====
-- Maps from addresses, written at one address.
use Prim.Native.Nat.{ℕ}
use opennap.Base.Tests.{◌==◌, if◌then◌else◌}

module _ {ℓ} {A : Type ℓ} where
  abbrev pub update : (ℕ → A) → ℕ → A → ℕ → A
  update f a v x = if x == a then v else f x
