-- ===== src/Auth/Store.antt =====
-- auth/store.py: the protocol of a token store, and the store in memory.
use jibit_ir_sdk.Prelude.{◌≡◌, String, ◌=ₛ◌, Option, none, some, List, ◌∷◌, if◌then◌else◌, arith}
use jibit_ir_sdk.Prelude.Dict.{Dict, lookup, insert, erase, lookup-insert, lookup-erase}
use jibit_ir_sdk.Effects.{Event, store_read, store_written, store_deleted, Outcome, ok, unless, M}
use jibit_ir_sdk.Exceptions.{Raised}
use jibit_ir_sdk.Auth.Tokens.{TokenState}

-- A store with states in `S`. `others` is what other threads and processes do to the store between
-- two calls of this one; it may depend on all that has happened.
pub record TokenStore (S : Type 0) : Type 0 where
  pub get : String → S → Outcome (Option TokenState)
  pub set : String → TokenState → S → S
  pub delete : String → S → S
  pub others : List Event → S → S
  -- what a write or a deletion raises, the last event of the history; the states then stay
  pub failure : List Event → Option Raised

-- What the SDK relies on.
pub record IsLawful {S : Type 0} (store : TokenStore S) : Type 0 where
  pub get-set :
      (k j : String) (t : TokenState) (s : S)
      → store.get j (store.set k t s) ≡ (if k =ₛ j then ok (some t) else store.get j s)
  pub get-delete :
      (k j : String) (s : S)
      → store.get j (store.delete k s) ≡ (if k =ₛ j then ok none else store.get j s)

-- `InMemoryTokenStore`: each method runs under the store's own lock.
unfoldable pub memory_store :
    (List Event → Dict TokenState → Dict TokenState) → TokenStore (Dict TokenState)
memory_store others = record {
  get = λ k s. ok (lookup k s);
  set = insert;
  delete = erase;
  others = others;
  failure = λ history. none;
}

abbrev pub changed : {S : Type 0} → Option Raised → S → S → S
changed none before after = after
changed (some e) before after = before

module _ {S : Type 0} (store : TokenStore S) where
  unfoldable pub store_get : String → M S (Option TokenState)
  store_get key w =
      let s = store.others w.trace w.store in
      (store.get key s, record { trace = store_read key ∷ w.trace; store = s })

  unfoldable pub store_set : String → TokenState → M S (Unit {0})
  store_set key token w =
      let s = store.others w.trace w.store in
      let failure = store.failure (store_written key ∷ w.trace) in
      (
        unless failure (ok tt),
        record {
          trace = store_written key ∷ w.trace;
          store = changed failure s (store.set key token s);
        },
      )

  unfoldable pub store_delete : String → M S (Unit {0})
  store_delete key w =
      let s = store.others w.trace w.store in
      let failure = store.failure (store_deleted key ∷ w.trace) in
      (
        unless failure (ok tt),
        record {
          trace = store_deleted key ∷ w.trace;
          store = changed failure s (store.delete key s);
        },
      )

-- The store in memory keeps the laws.
pub memory_store-IsLawful :
    (others : List Event → Dict TokenState → Dict TokenState) → IsLawful (memory_store others)
unfolding memory_store
memory_store-IsLawful others = record {
  get-set = λ k j t s. rw lookup-insert (ground arith);
  get-delete = λ k j s. rw lookup-erase (ground arith);
}
