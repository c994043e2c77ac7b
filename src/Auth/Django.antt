-- ===== src/Auth/Django.antt =====
-- auth/django.py: `DjangoCacheTokenStore`. The cache is Django's, with states in `S`: what it answers
-- is a parameter. It keeps Python values, which stand as JSON values here.
use jibit_ir_sdk.Prelude.{◌≡◌, refl, String, ◌=ₛ◌, Option, none, some, List, if◌then◌else◌}
use jibit_ir_sdk.Json.{Json, str, obj}
use jibit_ir_sdk.Exceptions.{value_error, Raised}
use jibit_ir_sdk.Effects.{Environment, Event, Outcome, ok, raised}
use jibit_ir_sdk.Auth.Tokens.{TokenState, to_cache_data, from_cache_data, map_ok, then_ok}
use jibit_ir_sdk.Auth.Tokens.Cache.{stored, from_cache_data-stored}
use jibit_ir_sdk.Auth.Store.{TokenStore}
use jibit_ir_sdk.Auth.Prefixed.{prefixed, prefixed-equal, then_ok-if, IsCache}

-- `DjangoCacheBackend`
pub record DjangoCacheBackend (S : Type 0) : Type 0 where
  pub get : String → S → Outcome (Option Json)
  pub set : String → Json → S → S
  pub delete : String → S → S
  pub failure : List Event → Option Raised

module _ (env : Environment) where
  abbrev read_cached : Option Json → Outcome (Option TokenState)
  read_cached none = ok none
  read_cached (some (obj value)) = map_ok some (from_cache_data env value)
  read_cached (some _) = raised value_error

  -- `DjangoCacheTokenStore`
  unfoldable pub django_store :
      {S : Type 0} → DjangoCacheBackend S → String → (List Event → S → S) → TokenStore S
  django_store cache key_prefix others = record {
    get = λ k s. then_ok (cache.get (prefixed key_prefix k) s) read_cached;
    set = λ k t s. cache.set (prefixed key_prefix k) (obj (to_cache_data t)) s;
    delete = λ k s. cache.delete (prefixed key_prefix k) s;
    others = others;
    failure = cache.failure;
  }

-- A cache that keeps what it is given.
pub record KeepsCached {S : Type 0} (cache : DjangoCacheBackend S) : Type 0 where
  pub get-set :
      (k j : String) (v : Json) (s : S)
      → cache.get j (cache.set k v s) ≡ (if k =ₛ j then ok (some v) else cache.get j s)
  pub get-delete :
      (k j : String) (s : S)
      → cache.get j (cache.delete k s) ≡ (if k =ₛ j then ok none else cache.get j s)

-- Over a cache that keeps its values, the store in Django's cache hands out what was written to it:
-- at the key that was written or deleted, and nowhere else.
pub django_store-IsCache :
    {S : Type 0} (env : Environment) (cache : DjangoCacheBackend S) (key_prefix : String)
    (others : List Event → S → S) (same_text : (s : String) → env.py_str (str s) ≡ s)
    (keeps : KeepsCached cache)
    → IsCache (django_store env cache key_prefix others)
unfolding django_store
django_store-IsCache env cache key_prefix others same_text keeps = record {
  get-set = λ k j t s.
      rw (keeps.get-set, prefixed-equal key_prefix k j)
        (then_ok-if (k =ₛ j) _ _ (read_cached env) (stored t)
          (from_cache_data-stored env same_text t));
  get-delete = λ k j s.
      rw (keeps.get-delete, prefixed-equal key_prefix k j)
        (then_ok-if (k =ₛ j) none _ (read_cached env) (ok none) refl);
}
