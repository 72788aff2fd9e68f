-- ===== src/Prelude/Uuid.antt =====
-- The pattern of a session id, a lower-case UUID of version 4.
use Prim.Native.Nat.{ℕ}
use Prim.Native.Char.{code}
use Prim.Native.String.{String, ◌++◌ as join}
use mathlib.Core.Path.{◌≡◌, refl, ap}
use text.Mathlib.TextLemmas.{nil-append, cons-append}
use mathlib.Core.Bool.{Bool, true, false, ◌&&◌, ◌||◌}
use mathlib.Core.List.{List, [], ◌∷◌, ◌++◌}
use claude_code_telegram_kit.Prelude.Tests.{leb, ◌==◌}

-- the code points of a text, `Array.from(text)`
unfoldable pub codes : String → List ℕ
codes String.[] = []
codes (String.◌∷◌ c s) = code c ∷ codes s

pub data Class : Type 0 where
  hex dash four variant : Class

unfoldable pub in_class : Class → ℕ → Bool
in_class hex c = (leb 48 c && leb c 57) || (leb 97 c && leb c 102)
in_class dash c = c == 45
in_class four c = c == 52
in_class variant c = c == 56 || c == 57 || c == 97 || c == 98

unfoldable pub matches : List Class → List ℕ → Bool
unfolding in_class
matches [] [] = true
matches [] (c ∷ cs) = false
matches (p ∷ ps) [] = false
matches (p ∷ ps) (c ∷ cs) = in_class p c && matches ps cs

abbrev four_hex : List Class
four_hex = hex ∷ hex ∷ hex ∷ hex ∷ []

abbrev uuid_pattern : List Class
uuid_pattern =
    four_hex
    ++ four_hex
    ++ dash ∷ four_hex
    ++ dash ∷ four ∷ hex ∷ hex ∷ hex ∷ dash ∷ variant ∷ hex ∷ hex ∷ hex ∷ dash ∷ four_hex
    ++ four_hex
    ++ four_hex

unfoldable pub is_uuid : String → Bool
unfolding matches codes
is_uuid s = matches uuid_pattern (codes s)

pub codes-append : (s t : String) → codes (join s t) ≡ codes s ++ codes t
unfolding codes
codes-append String.[] t = rw nil-append refl
codes-append (String.◌∷◌ c s) t = rw (cons-append, codes) (ap (λ l. code c ∷ l) (codes-append s t))
