-- ===== src/Tests/Stores.antt =====
-- A store in Redis and one in Django's cache, over clients in memory, and locks.
use jibit_ir_sdk.Prelude.{◌≡◌, refl, String, ◌=ₛ◌, ◌==◌, Option, none, some, List, [], ◌∷◌, arith}
use jibit_ir_sdk.Prelude.Dict.{Dict, lookup, insert, erase, lookup-insert, lookup-erase}
use jibit_ir_sdk.Json.{Json, str, obj, Fields}
use jibit_ir_sdk.Effects.{Event, ok}
use jibit_ir_sdk.Auth.Tokens.{TokenState, to_cache_data}
use jibit_ir_sdk.Auth.Prefixed.{IsCache}
use jibit_ir_sdk.Auth.Redis.{
  RedisValue, text, RedisClient, Codec, KeepsValues, redis_store, redis_store-IsCache,
}
use jibit_ir_sdk.Auth.Django.{DjangoCacheBackend, KeepsCached, django_store, django_store-IsCache}
use jibit_ir_sdk.Auth.Locks.{new_provider, lock, lock_all, lock_per_key}
use jibit_ir_sdk.Tests.Fixtures.{env}

abbrev as_value : Option Fields → Option (RedisValue Fields)
as_value none = none
as_value (some v) = some (text v)

abbrev redis : RedisClient Fields (Dict Fields)
redis = record {
  get = λ k s. ok (as_value (lookup k s));
  set = insert;
  delete = erase;
  failure = λ history. none;
}

abbrev codec : Codec Fields
codec = record { decode_utf8 = λ content. none; loads = λ fs. some (obj fs); dumps = λ fs. fs }

redis-KeepsValues : KeepsValues redis (λ v. text v)
redis-KeepsValues = record {
  get-set = λ k j v s. rw lookup-insert (ground arith);
  get-delete = λ k j s. rw lookup-erase (ground arith);
}

abbrev nobody : List Event → Dict Fields → Dict Fields
nobody history d = d

same_text : (s : String) → env.py_str (str s) ≡ s
same_text s = refl

readable : (s : Fields) → some s ≡ some s
readable s = refl

parsed :
    (t : TokenState) → codec.loads (codec.dumps (to_cache_data t)) ≡ some (obj (to_cache_data t))
parsed t = refl

redis_store-IsCache_example : IsCache (redis_store env codec redis "jibit-token" nobody)
redis_store-IsCache_example =
    redis_store-IsCache env codec redis "jibit-token" nobody (λ v. text v) same_text
      redis-KeepsValues readable parsed

abbrev cache : DjangoCacheBackend (Dict Json)
cache = record {
  get = λ k s. ok (lookup k s);
  set = insert;
  delete = erase;
  failure = λ history. none;
}

cache-KeepsCached : KeepsCached cache
cache-KeepsCached = record {
  get-set = λ k j v s. rw lookup-insert (ground arith);
  get-delete = λ k j s. rw lookup-erase (ground arith);
}

abbrev nobody_else : List Event → Dict Json → Dict Json
nobody_else history d = d

django_store-IsCache_example : IsCache (django_store env cache "jibit-token" nobody_else)
django_store-IsCache_example =
    django_store-IsCache env cache "jibit-token" nobody_else same_text cache-KeepsCached

lock_per_key_example :
    ((lock "a" (lock_all ("b" ∷ []) (lock "a" (lock_all ("c" ∷ []) new_provider)).1)).0
      == (lock "a" (lock_all ("c" ∷ []) new_provider)).0)
    ≡ ("a" =ₛ "a")
lock_per_key_example = lock_per_key ("c" ∷ []) ("b" ∷ []) "a" "a"
