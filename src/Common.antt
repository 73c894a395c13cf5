-- ===== src/Common.antt =====
-- The names that the other modules share: the libraries', passed on, and those of the children.
pub mod Tests
pub mod Lists
pub mod Search
pub mod Words
pub mod Bits
pub mod Monad
pub use Tests.{
  ltb, leb, ◌==◌, if◌then◌else◌, leb→le, le→leb, lt→ltb, ltb→lt, ltb→le, ==_iff, ==_self, ==_ne,
  Bool-cases, Option-cases,
}
pub use Prim.Native.Nat.{
  ℕ, zero, suc, ◌+◌, ◌-◌, ◌*◌, ◌/◌, ◌%◌, ◌^◌, ◌≤◌, ◌<◌, min, bit_and, bit_or, bit_xor,
}
pub use mathlib.Core.Path.{◌≡◌, refl, sym, ap, ap₂, ◌∙◌, subst}
pub use mathlib.Core.Logic.{◌≢◌, ◌↔◌, ◌⊎◌, inl, inr}
pub use mathlib.Core.Bool.{Bool, true, false, ◌&&◌, ◌||◌, not}
pub use mathlib.Core.Option.{Option, none, some}
pub use mathlib.Core.List.{List, [], ◌∷◌, ◌++◌, map, append-nil, append_assoc}
pub use native.Mathlib.Omega.{arith}
unfoldable pub use Lists.{
  length, get_elem?, set, update, take, drop, replicate, All, find_index, count, memcpy,
}
pub use Lists.{
  length-append, length-update, All-update, length-set, update-eq-set, length-take, length-drop,
  length-replicate, take-append-drop, take-append_left, drop-append_left, get_elem?-set_self,
  get_elem?-set_ne, get_elem?_of_lt, lt_of_get_elem?, All-set, All-get_elem?, All-replicate,
  All-append, All-take, All-drop, memcpy_lem, length-memcpy,
}
pub use Search.{
  find_index-some, find_index-none, find_index_of_count_zero, count_of_none, find_index-lt-length,
  count-le-length, count-set, find_index-set, find_index-set_same, count-set_same, count-pos,
}
unfoldable pub use Words.{word, bytes_of}
pub use Words.{inc32, dec32, inc8, IsByte}
pub use Monad.{
  ◌>>=◌, Yields, yields, bind, weaken, Yields-both, Yields-value, Yields-some, Yields-of_eq,
  Yields-if, Yields-get,
}
pub use Bits.{bit_and-le}
