-- ===== src/Config.antt =====
-- What the environment of a process holds, how packages/config/src/schemas test it with zod, and
-- the values that packages/config/src/configs read from it. The tests of zod are an interface.
-- Numbers are exact here, as JavaScript's are below 2 ^ 53.

pub mod Sections
pub mod Validation
pub mod Settings
pub mod Fields
pub mod Expected
pub mod Drain
pub mod Clients
pub mod Tests
pub mod Laws
use surgepay.Common.{
  ℕ, suc, zero, ◌+◌, ◌*◌, ◌-◌, String, Bool, true, false, ◌&&◌, ◌||◌, ◌=ℕ◌, refl, [], ◌∷◌, Option,
  none, some, List, leb, ◌==◌, ◌≡◌, ◌≢◌, if◌then◌else◌,
}
use surgepay.Messaging.Json.{Number, whole, negative, nan, is_space}
use Prim.Native.Char.{Char, code}

-- `process.env`; `none` is `undefined`.
abbrev pub Env : Type 0
Env = String → Option String

infixl 5 ◌>>=◌
abbrev pub ◌>>=◌ {ℓ κ} : {A : Type ℓ} {B : Type κ} → Option A → (A → Option B) → Option B
none >>= f = none
some a >>= f = f a

-- Inversion of a successful bind.
pub bind-eq-some {ℓ κ} :
    {A : Type ℓ} {B : Type κ} (m : Option A) (f : A → Option B) {b : B}
    → (m >>= f) ≡ some b
    → (a : A) × (m ≡ some a) × (f a ≡ some b)
bind-eq-some none f h = cc
bind-eq-some (some a) f h = (a, refl, h)

abbrev pub is_digit : Char → Bool
is_digit c = leb 48 (code c) && leb (code c) 57

-- The longest run of digits, after those read so far.
unfoldable pub read_digits : ℕ → String → ℕ
read_digits n String.[] = n
read_digits n (String.◌∷◌ c s) =
    let rest = read_digits (n * 10 + (code c - 48)) s in if is_digit c then rest else n

unfoldable pub unsigned : String → Option ℕ
unsigned String.[] = none
unsigned (String.◌∷◌ c s) = if is_digit c then some (read_digits (code c - 48) s) else none

abbrev pub negated : ℕ → Number
negated zero = whole zero
negated n = negative n

abbrev pub signed : String → Number
signed String.[] = nan
signed (String.◌∷◌ c s) =
    if code c =ℕ 45
    then elim (unsigned s) [ none ↦ nan | some n ↦ negated n ]
    else if code c =ℕ 43
    then elim (unsigned s) [ none ↦ nan | some n ↦ whole n ]
    else elim (unsigned (String.◌∷◌ c s)) [ none ↦ nan | some n ↦ whole n ]

unfoldable pub parse_int : String → Number
unfolding is_space
parse_int String.[] = nan
parse_int (String.◌∷◌ c s) =
    let rest = parse_int s in if is_space (code c) then rest else signed (String.◌∷◌ c s)

-- The tests of zod that the schemas chain.
pub record Zod : Type 0 where
  pub is_number : Number → Bool
  pub is_int : Number → Bool
  pub is_positive : Number → Bool
  pub is_nonnegative : Number → Bool
  pub is_url : String → Bool
  pub has_min : ℕ → String → Bool
  pub is_in : List String → String → Bool

abbrev pub listed : List String → String → Bool
listed [] s = false
listed (x ∷ xs) s = x == s || listed xs s

-- What the schemas rely on, of zod's documentation.
pub record IsZod (z : Zod) : Type 0 where
  pub number_nan : z.is_number nan ≡ false
  pub positive : (n : Number) → z.is_int n && z.is_positive n ≡ true → (m : ℕ) × (n ≡ whole (suc m))
  pub nonnegative : (n : Number) → z.is_int n && z.is_nonnegative n ≡ true → (m : ℕ) × (n ≡ whole m)
  pub url : (s : String) → z.is_url s ≡ true → s ≢ ""
  pub min : (s : String) → z.has_min 1 s ≡ true → s ≢ ""
  pub one_of : (xs : List String) (s : String) → z.is_in xs s ≡ listed xs s

-- `process.env.X || d`
abbrev pub text_or : String → Option String → String
text_or d none = d
text_or d (some s) = if s == "" then d else s

-- `process.env.X ? parseInt(process.env.X, 10) : d`
abbrev pub number_or : ℕ → Option String → Number
number_or d none = whole d
number_or d (some s) = if s == "" then whole d else parse_int s

abbrev pub is_text : String → Option String → Bool
is_text t none = false
is_text t (some s) = s == t

-- A schema field: `none` where the test of zod fails, else the value.
abbrev pub tested {ℓ} : {A : Type ℓ} → Bool → A → Option A
tested true a = some a
tested false a = none

-- `(val) => (val ? parseInt(String(val), 10) : undefined)`
abbrev pub parsed : Option String → Option Number
parsed none = none
parsed (some s) = if s == "" then none else some (parse_int s)

module _ (z : Zod) where
  -- `z.number().int().positive()` and `z.number().int().nonnegative()`
  abbrev pub is_positive_int : Number → Bool
  is_positive_int n = z.is_number n && (z.is_int n && z.is_positive n)

  abbrev pub is_nonnegative_int : Number → Bool
  is_nonnegative_int n = z.is_number n && (z.is_int n && z.is_nonnegative n)

  abbrev pub number_default : (Number → Bool) → ℕ → Option Number → Option Number
  number_default test d none = some (whole d)
  number_default test d (some n) = tested (test n) n

  abbrev pub number_optional : (Number → Bool) → Option Number → Option (Option Number)
  number_optional test none = some none
  number_optional test (some n) = tested (test n) (some n)

  abbrev pub positive_default : ℕ → Option String → Option Number
  positive_default d v = number_default is_positive_int d (parsed v)

  abbrev pub nonnegative_default : ℕ → Option String → Option Number
  nonnegative_default d v = number_default is_nonnegative_int d (parsed v)

  -- `z.string().url()`, without and with a default
  abbrev pub url : Option String → Option String
  url none = none
  url (some s) = tested (z.is_url s) s

  abbrev pub url_default : String → Option String → Option String
  url_default d none = some d
  url_default d (some s) = tested (z.is_url s) s

  -- `z.string().min(1)`
  abbrev pub required : Option String → Option String
  required none = none
  required (some s) = tested (z.has_min 1 s) s

  abbrev pub enum_default : List String → String → Option String → Option String
  enum_default xs d none = some d
  enum_default xs d (some s) = tested (z.is_in xs s) s

-- `z.string().default(d)`
abbrev pub string_default : String → Option String → String
string_default d none = d
string_default d (some s) = s
