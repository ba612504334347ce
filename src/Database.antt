-- ===== src/Database.antt =====
-- packages/database/src/client/factory.ts: the registry of Prisma clients, each with the number of its
-- construction, and config/index.ts. A disconnected client is in `closed`. The failures of a
-- disconnection are swallowed by the code and left out; so are the options besides the address.
pub mod Laws
use surgepay.Common.{
  ℕ, suc, ◌+◌, ◌=ℕ◌, String, Bool, true, false, Option, none, some, List, [], ◌∷◌, ◌++◌, ◌==◌, ◌||◌,
  if◌then◌else◌,
}
use Prim.Native.String

-- An address as `new URL` reads it: what stands before the query, and the query.
pub record Url : Type 0 where
  pub head : String
  pub search_params : List (String × String)

-- The numbers as `toString` writes them.
pub record PoolConfig : Type 0 where
  pub connection_limit : Option String
  pub pool_timeout : Option String
  pub socket_timeout : Option String
  pub schema : Option String

abbrev pub lookup {ℓ} : {A : Type ℓ} → String → List (String × A) → Option A
lookup key [] = none
lookup key ((k, a) ∷ rest) = if k == key then some a else lookup key rest

-- `if (value !== undefined && !url.searchParams.has(name)) url.searchParams.set(name, value)`
abbrev pub set_missing : String → Option String → List (String × String) → List (String × String)
set_missing name none params = params
set_missing name (some v) params = elim (lookup name params) [
  | none ↦ params ++ (name, v) ∷ []
  | some old ↦ params
]

module _ (parse_url : String → Option Url) (print_url : Url → String) where
  unfoldable pub build_database_url : String → PoolConfig → String
  build_database_url base config = elim (parse_url base) [
    | none ↦ base
    | some url ↦ print_url (record url {
      search_params = set_missing "schema" config.schema (
          set_missing "socket_timeout" config.socket_timeout (
            set_missing "pool_timeout" config.pool_timeout
              (set_missing "connection_limit" config.connection_limit url.search_params)));
    })
  ]

pub record Registry : Type 0 where
  pub active_clients : List ℕ
  pub client_cache : List (String × ℕ)
  pub globals : List (String × ℕ)
  pub constructed : ℕ
  pub closed : List ℕ

abbrev pub cache_key : String → String → String
cache_key name url = String.◌++◌ name (String.◌++◌ "_" url)

-- `new ClientConstructor(prismaOptions)`, and `activeClients.push`
abbrev pub construct : Registry → Registry
construct s = record s {
  active_clients = s.active_clients ++ s.constructed ∷ [];
  constructed = suc s.constructed;
}

abbrev pub cached : String → Registry → Registry × ℕ
cached key s = elim (lookup key s.client_cache) [
  | none ↦
      (record (construct s) { client_cache = (key, s.constructed) ∷ s.client_cache }, s.constructed)
  | some c ↦ (s, c)
]

abbrev pub global_client : String → Registry → Registry × ℕ
global_client key s = elim (lookup key s.globals) [
  | none ↦ (record (construct s) { globals = (key, s.constructed) ∷ s.globals }, s.constructed)
  | some c ↦ (s, c)
]

-- With the final address of a name; outside production the address is not part of the key.
unfoldable pub get_or_create_prisma_client : Bool → String → String → Registry → Registry × ℕ
get_or_create_prisma_client true name url s = cached (cache_key name url) s
get_or_create_prisma_client false name url s = global_client name s

unfoldable pub disconnect_all : Registry → Registry
disconnect_all s = record s {
  active_clients = [];
  client_cache = [];
  closed = s.active_clients ++ s.closed;
}

abbrev pub contains : ℕ → List ℕ → Bool
contains c [] = false
contains c (d ∷ ds) = d =ℕ c || contains c ds
