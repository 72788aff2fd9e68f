-- ===== src/Prelude/JsMap.antt =====
-- JavaScript's `Map` with string keys: an association list in insertion order.
use Prim.Native.Nat.{suc, ◌≤◌}
use Prim.Native.String.{String}
use mathlib.Core.Path.{◌≡◌, refl}
use mathlib.Core.Bool.{Bool, true, false}
use mathlib.Core.Option.{Option, none, some}
use mathlib.Core.List.{List, [], ◌∷◌, ◌++◌}
use native.Mathlib.Omega.{arith}
use text.Mathlib.Text.{◌==◌ as str_eq}
use text.Mathlib.TextEquality.{eq_iff}
use text.Mathlib.TextPositions.{eq_refl}
use claude_code_telegram_kit.Prelude.Tests.{if◌then◌else◌, is_some}
use claude_code_telegram_kit.Prelude.Lists.{length}
use claude_code_telegram_kit.Prelude.JsSet

abbrev pub JsMap {ℓ} : Type ℓ → Type ℓ
JsMap V = List (String × V)

module _ {ℓ} {V : Type ℓ} where
  -- map.get(k)
  unfoldable pub get : JsMap V → String → Option V
  get [] k = none
  get ((j, v) ∷ m) k = if str_eq j k then some v else get m k

  -- map.has(k)
  abbrev pub has : JsMap V → String → Bool
  has m k = is_some (get m k)

  -- map.set(k, v): a known key keeps its place, a new one goes to the end.
  unfoldable pub put : JsMap V → String → V → JsMap V
  put [] k v = (k, v) ∷ []
  put ((j, w) ∷ m) k v = if str_eq j k then (j, v) ∷ m else (j, w) ∷ put m k v

  -- map.delete(k)
  unfoldable pub delete : JsMap V → String → JsMap V
  delete [] k = []
  delete ((j, w) ∷ m) k = let rest = delete m k in if str_eq j k then rest else (j, w) ∷ rest

  unfoldable pub keys : JsMap V → List String
  keys [] = []
  keys ((j, _) ∷ m) = j ∷ keys m

  unfoldable pub values : JsMap V → List V
  values [] = []
  values ((_, v) ∷ m) = v ∷ values m

  pub get-put :
      (m : JsMap V) (k j : String) (v : V)
      → get (put m k v) j ≡ (if str_eq k j then some v else get m j)
  unfolding get put
  get-put [] k j v = refl
  get-put ((i, w) ∷ m) k j v = ground (arith, eq_iff i k, eq_iff i j, eq_iff k j, get-put m k j v)

  pub get-delete :
      (m : JsMap V) (k j : String) → get (delete m k) j ≡ (if str_eq k j then none else get m j)
  unfolding get delete
  get-delete [] k j = ground arith
  get-delete ((i, w) ∷ m) k j = ground (arith, eq_iff i k, eq_iff i j, eq_iff k j, get-delete m k j)

  -- The size after `set`.
  pub length-put :
      (m : JsMap V) (k : String) (v : V)
      → length (put m k v) ≡ (if has m k then length m else suc (length m))
  unfolding get put
  length-put [] k v = refl
  length-put ((i, w) ∷ m) k v = ground (arith, length-put m k v)

  pub length-delete : (m : JsMap V) (k : String) → length (delete m k) ≤ length m
  unfolding delete
  length-delete [] k = omega arith
  length-delete ((i, w) ∷ m) k = ground (arith, length-delete m k)

  pub put_of_absent :
      (m : JsMap V) (k : String) (v : V) → get m k ≡ none → put m k v ≡ m ++ (k, v) ∷ []
  unfolding get put
  put_of_absent [] k v h = refl
  put_of_absent ((i, w) ∷ m) k v h = ground (arith, put_of_absent m k v)

  pub has-keys : (m : JsMap V) (k : String) → JsSet.has (keys m) k ≡ has m k
  unfolding get keys JsSet.has
  has-keys [] k = refl
  has-keys ((i, w) ∷ m) k = ground (arith, has-keys m k)

  -- `set` on a known key leaves the keys as they are.
  pub keys-put_of_has :
      (m : JsMap V) (k : String) (v : V) → has m k ≡ true → keys (put m k v) ≡ keys m
  unfolding get put keys
  keys-put_of_has [] k v h = cc
  keys-put_of_has ((i, w) ∷ m) k v h = ground (arith, keys-put_of_has m k v)

  pub keys-put_of_absent :
      (m : JsMap V) (k : String) (v : V) → has m k ≡ false → keys (put m k v) ≡ keys m ++ k ∷ []
  unfolding get put keys
  keys-put_of_absent [] k v h = refl
  keys-put_of_absent ((i, w) ∷ m) k v h = ground (arith, keys-put_of_absent m k v)

  -- Deleting the first key of a map shortens it.
  pub length-delete_head :
      (k : String) (v : V) (m : JsMap V) → length (delete ((k, v) ∷ m) k) ≤ length m
  unfolding delete
  length-delete_head k v m = rw (eq_refl k) (length-delete m k)
