-- ===== src/Base.antt =====
-- Names shared by the other modules: the libraries', passed on, and those of the children.
mod Tests
mod Lists
pub mod Outcome
pub use Tests.*
pub use Lists.{
  length, length-append, List-cases, has, ◌∈◌, ◌∉◌, Distinct, has-append, not-mem-erase,
  Distinct-erase, not-mem-erase_self, length-erase, has-erase_ne, Distinct-snoc, mem_split,
  Distinct-append, Distinct-drop, erase-snoc,
}
unfoldable pub use Lists.{erase}
pub use Prim.Native.Nat.{ℕ, zero, suc, ◌+◌, ◌-◌, ◌*◌, ◌/◌, ◌%◌, ◌^◌, ◌≤◌, ◌<◌}
pub use mathlib.Core.Path.{◌≡◌, refl, sym, ap, ◌∙◌, subst}
pub use mathlib.Core.Logic.{◌≢◌, ◌⊎◌, inl, inr}
pub use mathlib.Core.Bool.{Bool, true, false, not, ◌&&◌, ◌||◌}
pub use mathlib.Core.Option.{Option, none, some}
pub use mathlib.Core.List.{List, [], ◌∷◌, ◌++◌, map}
pub use native.Mathlib.Omega.{arith}
