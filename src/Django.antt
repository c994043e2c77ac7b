-- ===== src/Django.antt =====
-- django/client.py: one client for the process, built from the setting JIBIT. The lock makes each
-- call one step. `validate` is pydantic's `model_validate` of `JibitConfig`, with `none` for its
-- ValidationError.
use jibit_ir_sdk.Prelude.{String, Bool, true, false, ◌≡◌, ap, Option, none, some, if◌then◌else◌}
use jibit_ir_sdk.Prelude.Text.{is_blank}
use jibit_ir_sdk.Json.{Json, null, bool, str, obj, Fields, end, field}
use jibit_ir_sdk.Config.{JibitConfig, configuration_error}
use jibit_ir_sdk.Config.Mapping.{find, remove, from_mapping}
use jibit_ir_sdk.Exceptions.{value_error}
use jibit_ir_sdk.Effects.{Outcome, ok, raised}
use jibit_ir_sdk.Auth.Tokens.{then_ok}
use jibit_ir_sdk.Client.{JibitClient, new_client, close}

-- What Django has: it is not installed, its settings are not configured, or `settings.JIBIT`, where
-- `none` is a missing attribute or None.
pub data Settings : Type 0 where
  not_installed not_configured : Settings
  jibit : Option Json → Settings

-- The token store that the client gets: the default one, or Django's cache under an alias and a key
-- prefix.
pub data StoreChoice : Type 0 where
  default_store : StoreChoice
  django_cache : String → String → StoreChoice

pub record DjangoClient : Type 0 where
  pub client : JibitClient
  pub token_store : StoreChoice

abbrev refuse : {A : Type 0} → Outcome A
refuse = raised configuration_error

abbrev split_integration : Fields → Option Json → Outcome (Fields × Fields)
split_integration raw none = ok (raw, end)
split_integration raw (some (obj options)) = ok (raw, options)
split_integration raw (some _) = refuse

-- `_load_settings`
unfoldable pub load_settings : Settings → Outcome (Fields × Fields)
unfolding find remove
load_settings (jibit (some (obj value))) =
    split_integration (remove "integration" value) (find "integration" value)
load_settings _ = refuse

abbrev flag_option : Option Json → Outcome Bool
flag_option none = ok false
flag_option (some (bool b)) = ok b
flag_option (some _) = refuse

-- A text that is not empty, or None.
abbrev text_option : Option Json → Outcome (Option String)
text_option none = ok none
text_option (some null) = ok none
text_option (some (str s)) = if is_blank s then refuse else ok (some s)
text_option (some _) = refuse

abbrev nothing_left : Fields → Outcome (Unit {0})
nothing_left end = ok tt
nothing_left (field k v fs) = refuse

abbrev given_or : Option String → String → String
given_or none s = s
given_or (some given) s = given

abbrev choose_store : Bool → Option String → Option String → Outcome StoreChoice
choose_store true alias key_prefix =
    ok (django_cache (given_or alias "default") (given_or key_prefix "jibit-token"))
choose_store false none none = ok default_store
choose_store false _ _ = refuse

-- The checks of the integration options, in their order.
unfoldable pub read_options : Fields → Outcome StoreChoice
unfolding find remove
read_options options = then_ok (flag_option (find "use_django_cache" options)) λ use_django_cache.
    then_ok (text_option (find "cache_alias" options)) λ cache_alias.
      then_ok (text_option (find "cache_key_prefix" options)) λ cache_key_prefix.
        then_ok
          (nothing_left
            (remove "cache_key_prefix" (remove "cache_alias" (remove "use_django_cache" options))))
          λ _. choose_store use_django_cache cache_alias cache_key_prefix

abbrev validated : Option JibitConfig → Outcome JibitConfig
validated none = raised value_error
validated (some config) = ok config

module _ (validate : Json → Option JibitConfig) where
  -- `JibitClient.from_config` of a mapping
  unfoldable pub from_config : Fields → Outcome JibitClient
  unfolding from_mapping
  from_config value =
      then_ok (from_mapping value)
        λ raw. then_ok (validated (validate raw)) λ config. ok (new_client config none false)

  build : Settings → Outcome DjangoClient
  unfolding load_settings read_options from_config
  build settings = then_ok (load_settings settings) λ loaded.
      then_ok (read_options loaded.1) λ token_store.
        then_ok (from_config loaded.0)
          λ client. ok (record { client = client; token_store = token_store })

  abbrev keep_built : Outcome DjangoClient → Outcome DjangoClient × Option DjangoClient
  keep_built (raised e) = (raised e, none)
  keep_built (ok c) = (ok c, some c)

  -- `get_jibit_client`, on the process-local `_client`
  unfoldable pub get_jibit_client :
      Settings → Option DjangoClient → Outcome DjangoClient × Option DjangoClient
  unfolding build
  get_jibit_client settings (some c) = (ok c, some c)
  get_jibit_client settings none = keep_built (build settings)

-- `close_jibit_client`: the client that it closed, if there was one, and the cleared variable.
unfoldable pub close_jibit_client : Option DjangoClient → Option JibitClient × Option DjangoClient
close_jibit_client none = (none, none)
close_jibit_client (some c) = (some (close c.client), none)

ok_injective : {A : Type 0} (a b : A) → ok a ≡ ok b → a ≡ b
ok_injective a b h = cc

module _ (validate : Json → Option JibitConfig) where
  kept_client :
      (later : Settings) (r : Outcome DjangoClient) (c : DjangoClient)
      → (keep_built validate r).0 ≡ ok c
      → get_jibit_client validate later (keep_built validate r).1 ≡ (ok c, some c)
  unfolding get_jibit_client
  kept_client later (raised e) c h = absurd cc
  kept_client later (ok d) c h = ap (λ x. (ok x, some x)) (ok_injective d c h)

  -- Once a client is built, every later call returns that client, whatever the settings have become.
  pub get_jibit_client_again :
      (settings later : Settings) (state : Option DjangoClient) (c : DjangoClient)
      → (get_jibit_client validate settings state).0 ≡ ok c
      → get_jibit_client validate later (get_jibit_client validate settings state).1
        ≡ (ok c, some c)
  unfolding get_jibit_client
  get_jibit_client_again settings later none c h = kept_client later (build validate settings) c h
  get_jibit_client_again settings later (some d) c h = ap (λ x. (ok x, some x)) (ok_injective d c h)
