-- ===== src/Auth/Provider/Stored.antt =====
-- auth/provider.py: the token that is handed out is the one that the store holds.
use jibit_ir_sdk.Prelude.{◌≡◌, Option, none, some}
use jibit_ir_sdk.Exceptions.{Raised}
use jibit_ir_sdk.Effects.{Environment, World, ok}
use jibit_ir_sdk.Effects.Ends.{Ends}
use jibit_ir_sdk.Auth.Tokens.{TokenState}
use jibit_ir_sdk.Auth.Store.{TokenStore}
use jibit_ir_sdk.Auth.Provider.{ServiceAuthenticator}

module _ {S : Type 0} (env : Environment) (store : TokenStore S) (a : ServiceAuthenticator) where
  -- The store holds the token at the key of the authenticator.
  abbrev Holds : TokenState → World S → Type 0
  Holds t w = store.get a.cache_key w.store ≡ ok (some t)

  abbrev HoldsIf : Option TokenState → World S → Type 0
  HoldsIf none w = Unit
  HoldsIf (some t) w = Holds t w

  abbrev Unknown : Raised → World S → Type 0
  Unknown e w = Unit
