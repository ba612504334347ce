-- ===== src/Messaging/Json.antt =====
-- Values of JavaScript as JSON carries them, and the bytes of a message as `JSON.parse` reads them.
use surgepay.Common.{
  ℕ, String, Bool, true, ◌||◌, ◌&&◌, Option, none, some, leb, ◌=ℕ◌, ◌==◌, if◌then◌else◌,
}
use Prim.Native.Char.{code}

-- A number, as far as the program's tests on it go: a natural number, a fraction between `n` and
-- `n + 1`, a negative number, or NaN (which JSON cannot carry).
pub data Number : Type 0 where
  whole between negative : ℕ → Number
  nan : Number

mutual
  pub data Json : Type 0 where
    null : Json
    bool : Bool → Json
    num : Number → Json
    str : String → Json
    arr : Items → Json
    obj : Fields → Json

  pub data Items : Type 0 where
    nil : Items
    cons : Json → Items → Items

  pub data Fields : Type 0 where
    end : Fields
    field : String → Json → Fields → Fields

-- Bytes are told apart by what `JSON.parse` makes of them: a value, or a syntax error.
pub data Buffer : Type 0 where
  json_text : Json → Buffer
  malformed_text : Buffer

-- `JSON.parse(buffer.toString())`
abbrev pub parse : Buffer → Option Json
parse (json_text j) = some j
parse malformed_text = none

-- A property of an object; `none` is `undefined`.
unfoldable pub property : String → Fields → Option Json
property name end = none
property name (field k v fs) = if k == name then some v else property name fs

-- White space as `String.prototype.trim` removes it.
unfoldable pub is_space : ℕ → Bool
is_space c =
    (leb 9 c && leb c 13)
    || c =ℕ 0x20
    || c =ℕ 0xa0
    || c =ℕ 0x1680
    || (leb 0x2000 c && leb c 0x200a)
    || c =ℕ 0x2028
    || c =ℕ 0x2029
    || c =ℕ 0x202f
    || c =ℕ 0x205f
    || c =ℕ 0x3000
    || c =ℕ 0xfeff

-- `!s.trim()`
unfoldable pub is_blank : String → Bool
unfolding is_space
is_blank String.[] = true
is_blank (String.◌∷◌ c s) = is_space (code c) && is_blank s

-- What `JSON.stringify` writes of a value: NaN has no JSON form and becomes `null`.
abbrev pub written_number : Number → Json
written_number nan = null
written_number n = num n

unfoldable mutual
  pub written : Json → Json
  written null = null
  written (bool b) = bool b
  written (num n) = written_number n
  written (str s) = str s
  written (arr vs) = arr (written_items vs)
  written (obj fs) = obj (written_fields fs)

  pub written_items : Items → Items
  written_items nil = nil
  written_items (cons v vs) = cons (written v) (written_items vs)

  pub written_fields : Fields → Fields
  written_fields end = end
  written_fields (field k v fs) = field k (written v) (written_fields fs)

-- `Buffer.from(JSON.stringify(v))`
abbrev pub stringify : Json → Buffer
stringify v = json_text (written v)
