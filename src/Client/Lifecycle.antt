-- ===== src/Client/Lifecycle.antt =====
-- client.py: how often the client closes its transport.
use jibit_ir_sdk.Prelude.{
  ℕ, ◌≡◌, refl, ◌∙◌, ap, Bool, true, false, not, ◌&&◌, Option, none, some, List, [], ◌∷◌,
  if◌then◌else◌, arith, suc,
}
use jibit_ir_sdk.Types.{
  ServiceName, payment_gateway, transfers, cobank, identicator, kyc, direct_debit, sms, contracts,
}
use jibit_ir_sdk.Config.{RetryConfig, JibitConfig}
use jibit_ir_sdk.Effects.{Environment, Outcome, ok, raised}
use jibit_ir_sdk.Auth.Provider.{ServiceAuthenticator}
use jibit_ir_sdk.Client.{
  Facade, JibitClient, new_client, engine_or_new, authenticated_engine, access, facade_or_new,
  facade, close, Use, ask_engine, ask_facade, call_close, use_client, use_all, keep_engine,
  keep_facade,
}

-- The uses that close the client.
abbrev pub closes : List Use → Bool
closes [] = false
closes (call_close ∷ us) = true
closes (ask_engine service ∷ us) = closes us
closes (ask_facade service ∷ us) = closes us

-- What `close` reads and writes.
abbrev Lifetime : Type 0
Lifetime = Bool × Bool × ℕ

lifetime : JibitClient → Lifetime
lifetime c = (c.owns_transport, c.closed, c.transport_closes)

module _ (env : Environment) where
  lifetime-keep_engine :
      (service : ServiceName) (c : JibitClient) (r : Outcome ServiceAuthenticator)
      → lifetime (keep_engine service c r).1 ≡ lifetime c
  unfolding lifetime
  lifetime-keep_engine service c (raised e) = refl
  lifetime-keep_engine service c (ok a) = refl

  lifetime-keep_facade :
      (service : ServiceName) (c : JibitClient) (r : Outcome Facade)
      → lifetime (keep_facade service c r).1 ≡ lifetime c
  unfolding lifetime
  lifetime-keep_facade service c (raised e) = refl
  lifetime-keep_facade service c (ok f) = refl

  lifetime-engine_or_new :
      (service : ServiceName) (c : JibitClient) (kept : Option ServiceAuthenticator)
      → lifetime (engine_or_new env service c kept).1 ≡ lifetime c
  unfolding engine_or_new
  lifetime-engine_or_new service c (some a) = refl
  lifetime-engine_or_new service c none = lifetime-keep_engine service c _

  lifetime-authenticated_engine :
      (service : ServiceName) (c : JibitClient)
      → lifetime (authenticated_engine env service c).1 ≡ lifetime c
  unfolding authenticated_engine
  lifetime-authenticated_engine service c = lifetime-engine_or_new service c _

  lifetime-access :
      (service : ServiceName) (c : JibitClient) → lifetime (access env service c).1 ≡ lifetime c
  unfolding access
  lifetime-access payment_gateway c = lifetime-authenticated_engine payment_gateway c
  lifetime-access transfers c = lifetime-authenticated_engine transfers c
  lifetime-access cobank c = lifetime-authenticated_engine cobank c
  lifetime-access identicator c = lifetime-authenticated_engine identicator c
  lifetime-access kyc c = refl
  lifetime-access direct_debit c = lifetime-authenticated_engine direct_debit c
  lifetime-access sms c = lifetime-authenticated_engine sms c
  lifetime-access contracts c = lifetime-authenticated_engine contracts c

  lifetime-facade_or_new :
      (service : ServiceName) (c : JibitClient) (kept : Option Facade)
      → lifetime (facade_or_new env service c kept).1 ≡ lifetime c
  unfolding facade_or_new
  lifetime-facade_or_new service c (some f) = refl
  lifetime-facade_or_new service c none =
      lifetime-keep_facade service (access env service c).1 _ ∙ lifetime-access service c

  lifetime-facade :
      (service : ServiceName) (c : JibitClient) → lifetime (facade env service c).1 ≡ lifetime c
  unfolding facade
  lifetime-facade service c = lifetime-facade_or_new service c _

  -- `close` and the uses, on the fields that they read.
  closed_after : List Use → Lifetime → ℕ
  closed_after us (owns, closed, n) = if not closed && (closes us && owns) then suc n else n

  closed_after-close :
      (us : List Use) (c : JibitClient)
      → closed_after us (lifetime (close c)) ≡ closed_after (call_close ∷ us) (lifetime c)
  unfolding closed_after lifetime close
  closed_after-close us c = ground arith

  transport_closes-use_all :
      (us : List Use) (c : JibitClient)
      → (use_all env us c).transport_closes ≡ closed_after us (lifetime c)
  unfolding use_all use_client closed_after lifetime close
  transport_closes-use_all [] c = ground arith
  transport_closes-use_all (call_close ∷ us) c =
      transport_closes-use_all us (close c) ∙ closed_after-close us c
  transport_closes-use_all (ask_engine service ∷ us) c =
      transport_closes-use_all us (authenticated_engine env service c).1
      ∙ ap (closed_after us) (lifetime-authenticated_engine service c)
  transport_closes-use_all (ask_facade service ∷ us) c =
      transport_closes-use_all us (facade env service c).1
      ∙ ap (closed_after us) (lifetime-facade service c)

-- A new client that is used in any way closes its transport exactly once if it built the transport
-- itself and is closed at least once, and otherwise never.
pub transport_closed_once :
    (env : Environment) (config : JibitConfig) (retry_policy : Option RetryConfig)
    (transport_given : Bool) (us : List Use)
    → (use_all env us (new_client config retry_policy transport_given)).transport_closes
      ≡ (if closes us && not transport_given then 1 else 0)
unfolding new_client closed_after lifetime
transport_closed_once env config retry_policy transport_given us = transport_closes-use_all env us _
