-- ===== src/Config/Credentials.antt =====
-- config.py: which credentials the validator admits.
use jibit_ir_sdk.Prelude.{◌≡◌, ◌↔◌, refl, String, true, Option, none, some}
use jibit_ir_sdk.Config.{ServiceCredentials, credentials_ok}

-- One complete method and nothing of another: a pair of an API key and its secret, a pair of a username
-- and its password, or an access token.
pub data OneMethod : ServiceCredentials → Type 0 where
  api_pair :
      (a s : String)
      → OneMethod (record {
        api_key = some a;
        secret_key = some s;
        username = none;
        password = none;
        access_token = none;
      })
  user_pair :
      (u p : String)
      → OneMethod (record {
        api_key = none;
        secret_key = none;
        username = some u;
        password = some p;
        access_token = none;
      })
  token :
      (t : String)
      → OneMethod (record {
        api_key = none;
        secret_key = none;
        username = none;
        password = none;
        access_token = some t;
      })

OneMethod-of_parts :
    (a s u p t : Option String)
    → credentials_ok
        (record { api_key = a; secret_key = s; username = u; password = p; access_token = t })
      ≡ true
    → OneMethod
        (record { api_key = a; secret_key = s; username = u; password = p; access_token = t })
unfolding credentials_ok
OneMethod-of_parts none none none none none h = absurd cc
OneMethod-of_parts none none none none (some t) h = token t
OneMethod-of_parts none none none (some p) none h = absurd cc
OneMethod-of_parts none none none (some p) (some t) h = absurd cc
OneMethod-of_parts none none (some u) none none h = absurd cc
OneMethod-of_parts none none (some u) none (some t) h = absurd cc
OneMethod-of_parts none none (some u) (some p) none h = user_pair u p
OneMethod-of_parts none none (some u) (some p) (some t) h = absurd cc
OneMethod-of_parts none (some s) none none none h = absurd cc
OneMethod-of_parts none (some s) none none (some t) h = absurd cc
OneMethod-of_parts none (some s) none (some p) none h = absurd cc
OneMethod-of_parts none (some s) none (some p) (some t) h = absurd cc
OneMethod-of_parts none (some s) (some u) none none h = absurd cc
OneMethod-of_parts none (some s) (some u) none (some t) h = absurd cc
OneMethod-of_parts none (some s) (some u) (some p) none h = absurd cc
OneMethod-of_parts none (some s) (some u) (some p) (some t) h = absurd cc
OneMethod-of_parts (some a) none none none none h = absurd cc
OneMethod-of_parts (some a) none none none (some t) h = absurd cc
OneMethod-of_parts (some a) none none (some p) none h = absurd cc
OneMethod-of_parts (some a) none none (some p) (some t) h = absurd cc
OneMethod-of_parts (some a) none (some u) none none h = absurd cc
OneMethod-of_parts (some a) none (some u) none (some t) h = absurd cc
OneMethod-of_parts (some a) none (some u) (some p) none h = absurd cc
OneMethod-of_parts (some a) none (some u) (some p) (some t) h = absurd cc
OneMethod-of_parts (some a) (some s) none none none h = api_pair a s
OneMethod-of_parts (some a) (some s) none none (some t) h = absurd cc
OneMethod-of_parts (some a) (some s) none (some p) none h = absurd cc
OneMethod-of_parts (some a) (some s) none (some p) (some t) h = absurd cc
OneMethod-of_parts (some a) (some s) (some u) none none h = absurd cc
OneMethod-of_parts (some a) (some s) (some u) none (some t) h = absurd cc
OneMethod-of_parts (some a) (some s) (some u) (some p) none h = absurd cc
OneMethod-of_parts (some a) (some s) (some u) (some p) (some t) h = absurd cc

credentials_ok-of_method : (c : ServiceCredentials) → OneMethod c → credentials_ok c ≡ true
unfolding credentials_ok
credentials_ok-of_method c (api_pair a s) = refl
credentials_ok-of_method c (user_pair u p) = refl
credentials_ok-of_method c (token t) = refl

-- Credentials pass the validator exactly if they are one complete method and nothing of another.
pub credentials_ok-OneMethod : (c : ServiceCredentials) → (credentials_ok c ≡ true) ↔ OneMethod c
credentials_ok-OneMethod c = (
  OneMethod-of_parts c.api_key c.secret_key c.username c.password c.access_token,
  credentials_ok-of_method c,
)
