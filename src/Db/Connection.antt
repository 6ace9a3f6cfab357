-- ===== src/Db/Connection.antt =====
-- `getPool` of web/lib/db.ts: the pool is made at the first call and kept in a module variable.
-- `new URL` and `decodeURIComponent` are parameters.
use solounlucky.Prelude.{
  ℕ, ◌≡◌, refl, Bool, false, not, ◌⊎◌, inl, inr, [], ◌∷◌, Option, none, some, Text, codes, text_eq,
  ◌==◌, if◌then◌else◌,
}
use solounlucky.Js.{Number, whole, is_falsy, number_of_digits}
use solounlucky.Db.Outcome.{Outcome, returned, thrown, ◌>>=◌, Outcome-cases}

pub record Env : Type 0 where
  pub database_url : Option Text
  pub database_no_ssl : Option Text

pub record Url : Type 0 where
  pub hostname : Text
  pub port : Text
  pub pathname : Text
  pub username : Text
  pub password : Text

-- `ssl` is false, or true for `{ rejectUnauthorized: false }`.
pub record Config : Type 0 where
  pub host : Text
  pub port : Number
  pub database : Text
  pub user : Text
  pub password : Text
  pub ssl : Bool
  pub max : ℕ
  pub idle_timeout_millis : ℕ
  pub connection_timeout_millis : ℕ

-- `pathname.replace(/^\//, '')`
abbrev pub strip_slash : Text → Text
strip_slash [] = []
strip_slash (c ∷ s) = if c == b'/' then s else c ∷ s

-- The empty string is falsy.
abbrev pub url_of : Env → Outcome Text
url_of env = elim env.database_url [
  | none ↦ thrown (codes "DATABASE_URL environment variable is not set")
  | some s ↦
      if text_eq s []
      then thrown (codes "DATABASE_URL environment variable is not set")
      else returned s
]

abbrev pub has_no_ssl : Env → Bool
has_no_ssl env = elim env.database_no_ssl [ none ↦ false | some s ↦ text_eq s (codes "true") ]

module _ (parse_url : Text → Outcome Url) (decode_uri : Text → Outcome Text) where
  unfoldable pub make_config : Env → Outcome Config
  make_config env = do
    url ← url_of env
    parsed ← parse_url url
    user ← decode_uri parsed.username
    password ← decode_uri parsed.password
    let port = number_of_digits parsed.port
    returned record {
      host = parsed.hostname;
      port = if is_falsy port then whole 5432 else port;
      database = strip_slash parsed.pathname;
      user = user;
      password = password;
      ssl = not (has_no_ssl env);
      max = 5;
      idle_timeout_millis = 30_000;
      connection_timeout_millis = 5000;
    }

  -- The module variable before, the result, and the variable after.
  unfoldable pub get_pool : Env → Option Config → Outcome Config × Option Config
  get_pool env (some pool) = (returned pool, some pool)
  get_pool env none = elim (make_config env) [
    | returned c ↦ (returned c, some c)
    | thrown e ↦ (thrown e, none)
  ]

  -- Once a call has succeeded, every later call gives the same pool, whatever the environment is then,
  -- and a call that throws leaves no pool behind.
  pub get_pool_kept :
      (env later : Env) (pool : Option Config)
      → ((c : Config) × ((get_pool env pool).0 ≡ returned c)
          × (get_pool later (get_pool env pool).1 ≡ (returned c, some c)))
        ⊎ ((e : Text) × ((get_pool env pool).0 ≡ thrown e) × ((get_pool env pool).1 ≡ none))
  unfolding get_pool
  get_pool_kept env later (some c) = inl (c, refl, refl)
  get_pool_kept env later none = elim (Outcome-cases (make_config env)) [
    | inl (c, e) ↦ inl (c, rw (e, get_pool), rw (e, get_pool))
    | inr (m, e) ↦ inr (m, rw (e, get_pool), rw (e, get_pool))
  ]
