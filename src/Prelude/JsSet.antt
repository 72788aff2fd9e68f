-- ===== src/Prelude/JsSet.antt =====
-- JavaScript's `Set` of strings: a list in insertion order.
use Prim.Native.Nat.{◌≤◌}
use Prim.Native.String.{String}
use mathlib.Core.Path.{◌≡◌, refl}
use mathlib.Core.Bool.{Bool, false, ◌||◌}
use mathlib.Core.List.{List, [], ◌∷◌, ◌++◌}
use native.Mathlib.Omega.{arith}
use text.Mathlib.Text.{◌==◌ as str_eq}
use text.Mathlib.TextEquality.{eq_iff}
use claude_code_telegram_kit.Prelude.Tests.{if◌then◌else◌}
use claude_code_telegram_kit.Prelude.Lists.{length}

-- set.has(x)
unfoldable pub has : List String → String → Bool
has [] x = false
has (y ∷ s) x = str_eq y x || has s x

-- set.add(x)
unfoldable pub add : List String → String → List String
add s x = if has s x then s else s ++ x ∷ []

-- set.delete(x)
unfoldable pub delete : List String → String → List String
delete [] x = []
delete (y ∷ s) x = let rest = delete s x in if str_eq y x then rest else y ∷ rest

pub has-append : (s t : List String) (x : String) → has (s ++ t) x ≡ (has s x || has t x)
unfolding has
has-append [] t x = refl
has-append (y ∷ s) t x = ground (arith, has-append s t x)

pub has-delete :
    (s : List String) (x y : String) → has (delete s x) y ≡ (if str_eq x y then false else has s y)
unfolding has delete
has-delete [] x y = ground arith
has-delete (z ∷ s) x y = ground (arith, eq_iff z x, eq_iff z y, eq_iff x y, has-delete s x y)

pub length-delete : (s : List String) (x : String) → length (delete s x) ≤ length s
unfolding delete
length-delete [] x = omega arith
length-delete (y ∷ s) x = ground (arith, length-delete s x)

-- No text stands twice.
abbrev pub IsDistinct : List String → Type 0
IsDistinct [] = Unit
IsDistinct (x ∷ s) = (has s x ≡ false) × IsDistinct s

pub IsDistinct-snoc :
    (s : List String) (x : String) → IsDistinct s → has s x ≡ false → IsDistinct (s ++ x ∷ [])
unfolding has
IsDistinct-snoc [] x d h = (refl, tt)
IsDistinct-snoc (y ∷ s) x (n, d) h = (
  ground (arith, has-append s (x ∷ []) y, eq_iff x y, eq_iff y x),
  IsDistinct-snoc s x d (ground arith),
)
