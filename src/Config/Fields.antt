-- ===== src/Config/Fields.antt =====
-- What one field of a schema promises of the value that the services read.
use surgepay.Config.{
  bind-eq-some, ◌>>=◌, Zod, IsZod, positive_default, nonnegative_default, number_default,
  is_positive_int, is_nonnegative_int, parsed, url, url_default, required, enum_default, text_or,
  number_or, tested, listed, parse_int, number_optional,
}
use surgepay.Config.Validation.{levels, limit_default}
use surgepay.Common.{
  ◌⊎◌, ◌∙◌, sym, inr, inl, ap, Option, some, none, String, Bool, true, false, ◌==◌, ℕ, suc, ◌≡◌,
  ◌≢◌, refl, arith, if◌then◌else◌, Bool-cases, eq_iff,
}
use surgepay.Messaging.Json.{Number, whole}

abbrev pub AtLeastOne : Number → Type 0
AtLeastOne n = (m : ℕ) × (n ≡ whole (suc m))

abbrev pub NotBelowZero : Number → Type 0
NotBelowZero n = (m : ℕ) × (n ≡ whole m)

tested-eq-some {ℓ} :
    {A : Type ℓ} (b : Bool) (a : A) {c : A} → tested b a ≡ some c → (b ≡ true) × (a ≡ c)
tested-eq-some true a h = (refl, cc)
tested-eq-some false a h = cc

module _ (z : Zod) (laws : IsZod z) where
  int_positive : (n : Number) → is_positive_int z n ≡ true → AtLeastOne n
  int_positive n h = laws.positive n (ground (arith, h))

  int_natural : (n : Number) → is_nonnegative_int z n ≡ true → NotBelowZero n
  int_natural n h = laws.nonnegative n (ground (arith, h))

  number_sound :
      (test : Number → Bool) (d : ℕ) (b : Bool) (m : Number) {n : Number}
      → number_default z test d (if b then none else some m) ≡ some n
      → ((if b then whole d else m) ≡ n) × ((n ≡ whole d) ⊎ (test n ≡ true))
  number_sound test d true m h = (cc, inl cc)
  number_sound test d false m h =
      let (passes, same) = tested-eq-some (test m) m h in (same, inr (sym (ap test same) ∙ passes))

  positive_sound :
      (d : ℕ) (v : Option String) {n : Number}
      → positive_default z (suc d) v ≡ some n
      → (number_or (suc d) v ≡ n) × AtLeastOne n
  positive_sound d none h = (cc, (d, cc))
  positive_sound d (some s) {n} h =
      let (same, range) = number_sound (is_positive_int z) (suc d) (s == "") (parse_int s) h in
      (same, elim range [ inl q ↦ (d, q) | inr q ↦ int_positive n q ])

  natural_sound :
      (d : ℕ) (v : Option String) {n : Number}
      → nonnegative_default z d v ≡ some n
      → (number_or d v ≡ n) × NotBelowZero n
  natural_sound d none h = (cc, (d, cc))
  natural_sound d (some s) {n} h =
      let (same, range) = number_sound (is_nonnegative_int z) d (s == "") (parse_int s) h in
      (same, elim range [ inl q ↦ (d, q) | inr q ↦ int_natural n q ])

  url_sound : (v : Option String) {s : String} → url z v ≡ some s → v ≡ some s
  url_sound none h = cc
  url_sound (some t) h = ap some (tested-eq-some (z.is_url t) t h).1

  nonempty : (t : String) → t ≢ "" → (t == "") ≡ false
  nonempty t h = ground (arith, eq_iff t "")

  url_default_sound :
      (d : String) (v : Option String) {s : String} → url_default z d v ≡ some s → text_or d v ≡ s
  url_default_sound d none h = cc
  url_default_sound d (some t) h =
      let (passes, same) = tested-eq-some (z.is_url t) t h in
      rw (nonempty t (laws.url t passes)) same

  required_sound :
      (d : String) (v : Option String) {s : String}
      → required z v ≡ some s
      → (v ≡ some s) × (text_or d v ≡ s) × ((s == "") ≡ false)
  required_sound d none h = cc
  required_sound d (some t) h =
      let (passes, same) = tested-eq-some (z.has_min 1 t) t h in
      let full = nonempty t (laws.min t passes) in
      (ap some same, rw full same, sym (ap (λ u. u == "") same) ∙ full)

  level_nonempty : (t : String) → listed levels t ≡ true → (t == "") ≡ false
  level_nonempty t h = elim (Bool-cases (t == "")) [
    | inl e ↦ let q : false ≡ true = sym (ap (listed levels) ((eq_iff t "").0 e)) ∙ h in cc
    | inr e ↦ e
  ]

  level_sound :
      (v : Option String) {s : String}
      → enum_default z levels "info" v ≡ some s
      → text_or "info" v ≡ s
  level_sound none h = cc
  level_sound (some t) h =
      let (passes, same) = tested-eq-some (z.is_in levels t) t h in
      rw (level_nonempty t (sym (laws.one_of levels t) ∙ passes)) same

  number_nonempty : (s : String) → z.is_number (parse_int s) ≡ true → (s == "") ≡ false
  unfolding parse_int
  number_nonempty s h = elim (Bool-cases (s == "")) [
    | inl e ↦
        let q = sym (ap (λ t. z.is_number (parse_int t)) ((eq_iff s "").0 e)) ∙ h in
        let r = laws.number_nan in cc
    | inr e ↦ e
  ]

  optional_number :
      (v : Option Number) {o : Option Number}
      → number_optional z (is_positive_int z) v ≡ some o
      → v ≡ o
  optional_number none h = cc
  optional_number (some n) h = (tested-eq-some (is_positive_int z n) (some n) h).1

  limit_sound : (v : Option String) {n : Number} → limit_default z v ≡ some n → number_or 3 v ≡ n
  limit_sound none h = (tested-eq-some (z.is_number (whole 3)) (whole 3) h).1
  limit_sound (some s) h =
      let (passes, same) = tested-eq-some (z.is_number (parse_int s)) (parse_int s) h in
      rw (number_nonempty s passes) same

  optional_sound :
      (v : Option String) {o : Option Number}
      → number_optional z (is_positive_int z) (parsed v) ≡ some o
      → parsed v ≡ o
  optional_sound none h = cc
  optional_sound (some s) h = optional_number (if s == "" then none else some (parse_int s)) h

  -- The same within the chain of a schema: the rest of the chain goes on with the value that the
  -- services read.
  module _ {B : Type 0} {b : B} where
    pub through_positive :
        (d : ℕ) (v : Option String) (f : Number → Option B)
        → (positive_default z (suc d) v >>= f) ≡ some b
        → AtLeastOne (number_or (suc d) v) × (f (number_or (suc d) v) ≡ some b)
    through_positive d v f h =
        let (n, read, goes_on) = bind-eq-some (positive_default z (suc d) v) f h in
        let (same, range) = positive_sound d v read in rw same (range, goes_on)

    pub through_natural :
        (d : ℕ) (v : Option String) (f : Number → Option B)
        → (nonnegative_default z d v >>= f) ≡ some b
        → NotBelowZero (number_or d v) × (f (number_or d v) ≡ some b)
    through_natural d v f h =
        let (n, read, goes_on) = bind-eq-some (nonnegative_default z d v) f h in
        let (same, range) = natural_sound d v read in rw same (range, goes_on)

    pub through_optional :
        (v : Option String) (f : Option Number → Option B)
        → (number_optional z (is_positive_int z) (parsed v) >>= f) ≡ some b
        → f (parsed v) ≡ some b
    through_optional v f h =
        let (o, read, goes_on) =
          bind-eq-some (number_optional z (is_positive_int z) (parsed v)) f h in
        rw (optional_sound v read) goes_on

    pub through_limit :
        (v : Option String) (f : Number → Option B)
        → (limit_default z v >>= f) ≡ some b
        → f (number_or 3 v) ≡ some b
    through_limit v f h =
        let (n, read, goes_on) = bind-eq-some (limit_default z v) f h in
        rw (limit_sound v read) goes_on

    pub through_url :
        (v : Option String) (f : String → Option B)
        → (url z v >>= f) ≡ some b
        → (s : String) × (v ≡ some s) × (f s ≡ some b)
    through_url v f h =
        let (s, read, goes_on) = bind-eq-some (url z v) f h in (s, url_sound v read, goes_on)

    pub through_url_default :
        (d : String) (v : Option String) (f : String → Option B)
        → (url_default z d v >>= f) ≡ some b
        → f (text_or d v) ≡ some b
    through_url_default d v f h =
        let (s, read, goes_on) = bind-eq-some (url_default z d v) f h in
        rw (url_default_sound d v read) goes_on

    pub through_required :
        (d : String) (v : Option String) (f : String → Option B)
        → (required z v >>= f) ≡ some b
        → (v ≡ some (text_or d v)) × ((text_or d v == "") ≡ false) × (f (text_or d v) ≡ some b)
    through_required d v f h =
        let (s, read, goes_on) = bind-eq-some (required z v) f h in
        let (present, same, full) = required_sound d v read in rw same (present, full, goes_on)

    pub through_level :
        (v : Option String) (f : String → Option B)
        → (enum_default z levels "info" v >>= f) ≡ some b
        → f (text_or "info" v) ≡ some b
    through_level v f h =
        let (s, read, goes_on) = bind-eq-some (enum_default z levels "info" v) f h in
        rw (level_sound v read) goes_on
