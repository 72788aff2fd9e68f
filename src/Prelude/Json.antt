-- ===== src/Prelude/Json.antt =====
-- Values of parsed JSON, as far as the validators look into them.
use Prim.Native.Nat.{ℕ}
use Prim.Native.String.{String}
use mathlib.Core.Bool.{Bool}
use mathlib.Core.Option.{Option, none, some}
use claude_code_telegram_kit.Prelude.Tests.{if◌then◌else◌, leb}
use claude_code_telegram_kit.Prelude.JsMap
use claude_code_telegram_kit.Prelude.JsMap.{JsMap}

-- A number is `number` if it is a natural number, else `other_number`; an array or an object is
-- `composite`.
pub data Json : Type 0 where
  null_value other_number composite : Json
  boolean : Bool → Json
  number : ℕ → Json
  text : String → Json

-- Number.MAX_SAFE_INTEGER
abbrev pub max_safe_integer : ℕ
max_safe_integer = 9007199254740991

-- a value that is a text
unfoldable pub text_of : Option Json → Option String
text_of (some (text s)) = some s
text_of _ = none

-- a value that is a number, a safe integer and not negative
unfoldable pub safe_of : Option Json → Option ℕ
safe_of (some (number n)) = if leb n max_safe_integer then some n else none
safe_of _ = none

unfoldable pub text_field : JsMap Json → String → Option String
text_field fields key = text_of (JsMap.get fields key)
