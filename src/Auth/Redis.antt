-- ===== src/Auth/Redis.antt =====
-- auth/redis.py: `RedisTokenStore` and the key of `RedisLockProvider`. The client of Redis is the
-- application's, with states in `S`: what it answers is a parameter.
use jibit_ir_sdk.Prelude.{◌≡◌, refl, ap, ◌∙◌, String, ◌=ₛ◌, Option, none, some, List, if◌then◌else◌}
use jibit_ir_sdk.Json.{Json, str, obj, Fields}
use jibit_ir_sdk.Exceptions.{value_error, Raised}
use jibit_ir_sdk.Transport.{Bytes}
use jibit_ir_sdk.Effects.{Environment, Event, Outcome, ok, raised}
use jibit_ir_sdk.Auth.Tokens.{TokenState, to_cache_data, from_cache_data, map_ok, then_ok}
use jibit_ir_sdk.Auth.Tokens.Cache.{stored, from_cache_data-stored}
use jibit_ir_sdk.Auth.Store.{TokenStore}
use jibit_ir_sdk.Auth.Prefixed.{prefixed, prefixed-equal, then_ok-if, IsCache}

-- bytes | str, where `T` is the type of the texts that json.dumps writes: nothing else looks into them
pub data RedisValue (T : Type 0) : Type 0 where
  bytes : Bytes → RedisValue T
  text : T → RedisValue T

-- `RedisClient`, less its locks, which the events `locked` and `unlocked` stand for.
pub record RedisClient (T S : Type 0) : Type 0 where
  pub get : String → S → Outcome (Option (RedisValue T))
  pub set : String → T → S → S
  pub delete : String → S → S
  pub failure : List Event → Option Raised

-- What the adapter uses of Python: json.loads and json.dumps on texts, and bytes.decode("utf-8"), with
-- `none` where they raise a ValueError.
pub record Codec (T : Type 0) : Type 0 where
  pub decode_utf8 : Bytes → Option T
  pub loads : T → Option Json
  pub dumps : Fields → T

-- `RedisLockProvider.lock`: the name of the lock.
abbrev pub lock_name : String → String → String
lock_name key_prefix key = prefixed key_prefix key

abbrev decoded : {T : Type 0} → Codec T → RedisValue T → Option T
decoded codec (bytes content) = codec.decode_utf8 content
decoded codec (text s) = some s

module _ {T : Type 0} (env : Environment) (codec : Codec T) where
  abbrev restored : Option Json → Outcome (Option TokenState)
  restored (some (obj value)) = map_ok some (from_cache_data env value)
  restored _ = raised value_error

  abbrev loaded : Option T → Outcome (Option TokenState)
  loaded none = raised value_error
  loaded (some s) = restored (codec.loads s)

  abbrev read_value : Option (RedisValue T) → Outcome (Option TokenState)
  read_value none = ok none
  read_value (some value) = loaded (decoded codec value)

  -- `RedisTokenStore`
  unfoldable pub redis_store :
      {S : Type 0} → RedisClient T S → String → (List Event → S → S) → TokenStore S
  redis_store client key_prefix others = record {
    get = λ k s. then_ok (client.get (prefixed key_prefix k) s) read_value;
    set = λ k t s. client.set (prefixed key_prefix k) (codec.dumps (to_cache_data t)) s;
    delete = λ k s. client.delete (prefixed key_prefix k) s;
    others = others;
    failure = client.failure;
  }

-- A client keeps what it is given, and `value` is the form in which it answers.
pub record KeepsValues {T S : Type 0} (client : RedisClient T S) (value : T → RedisValue T)
    : Type 0 where
  pub get-set :
      (k j : String) (v : T) (s : S)
      → client.get j (client.set k v s) ≡ (if k =ₛ j then ok (some (value v)) else client.get j s)
  pub get-delete :
      (k j : String) (s : S)
      → client.get j (client.delete k s) ≡ (if k =ₛ j then ok none else client.get j s)

-- Over a client that keeps its values, in an encoding that can be read back, the store in Redis hands
-- out what was written to it: at the key that was written or deleted, and nowhere else.
pub redis_store-IsCache :
    {T S : Type 0} (env : Environment) (codec : Codec T) (client : RedisClient T S)
    (key_prefix : String) (others : List Event → S → S) (value : T → RedisValue T)
    (same_text : (s : String) → env.py_str (str s) ≡ s) (keeps : KeepsValues client value)
    (readable : (s : T) → decoded codec (value s) ≡ some s)
    (parsed : (t : TokenState)
      → codec.loads (codec.dumps (to_cache_data t)) ≡ some (obj (to_cache_data t)))
    → IsCache (redis_store env codec client key_prefix others)
unfolding redis_store
redis_store-IsCache env codec client key_prefix others value same_text keeps readable parsed =
    record {
      get-set = λ k j t s.
          rw (keeps.get-set, prefixed-equal key_prefix k j)
            (then_ok-if (k =ₛ j) _ _ (read_value env codec) (stored t) (
              ap (loaded env codec) (readable (codec.dumps (to_cache_data t)))
              ∙ ap (restored env codec) (parsed t)
              ∙ from_cache_data-stored env same_text t));
      get-delete = λ k j s.
          rw (keeps.get-delete, prefixed-equal key_prefix k j)
            (then_ok-if (k =ₛ j) none _ (read_value env codec) (ok none) refl);
    }
