-- ===== src/Redaction/Secrecy.antt =====
-- What `redact` hides: values under sensitive keys, and the keys that count as sensitive.
use jibit_ir_sdk.Prelude.{◌≡◌, refl, ap, ◌⊎◌, inl, inr, String, true}
use jibit_ir_sdk.Json.{Json, arr, obj, str, Items, nil, cons, Fields, end, field}
use jibit_ir_sdk.Unicode.{Unicode}
use jibit_ir_sdk.Redaction.{redact, redact_items, redact_fields, is_sensitive_key, redact_text}

module _ (u : Unicode) where
  -- Two values that differ at most in what stands under sensitive keys.
  mutual
    pub data Similar : Json → Json → Type 0 where
      same : {v : Json} → Similar v v
      arrays : {vs ws : Items} → SimilarItems vs ws → Similar (arr vs) (arr ws)
      objects : {fs gs : Fields} → SimilarFields fs gs → Similar (obj fs) (obj gs)

    pub data SimilarItems : Items → Items → Type 0 where
      none_left : SimilarItems nil nil
      one_more :
          {v w : Json} {vs ws : Items}
          → Similar v w
          → SimilarItems vs ws
          → SimilarItems (cons v vs) (cons w ws)

    pub data SimilarFields : Fields → Fields → Type 0 where
      finished : SimilarFields end end
      shown :
          {k : String} {v w : Json} {fs gs : Fields}
          → Similar v w
          → SimilarFields fs gs
          → SimilarFields (field k v fs) (field k w gs)
      hidden :
          {k : String} {v w : Json} {fs gs : Fields}
          → is_sensitive_key u k ≡ true
          → SimilarFields fs gs
          → SimilarFields (field k v fs) (field k w gs)

  mutual
    unfolding redact

    redact-Similar : {v w : Json} → Similar v w → redact u v ≡ redact u w
    redact-Similar same = refl
    redact-Similar (arrays h) = ap arr (redact_items_similar h)
    redact-Similar (objects h) = ap obj (redact_fields_similar h)

    redact_items_similar :
        {vs ws : Items} → SimilarItems vs ws → redact_items u vs ≡ redact_items u ws
    redact_items_similar none_left = refl
    redact_items_similar (one_more h t) = cc (redact-Similar h, redact_items_similar t)

    redact_fields_similar :
        {fs gs : Fields} → SimilarFields fs gs → redact_fields u fs ≡ redact_fields u gs
    redact_fields_similar finished = refl
    redact_fields_similar (shown h t) = cc (redact-Similar h, redact_fields_similar t)
    redact_fields_similar (hidden s t) = rw s (cc (redact_fields_similar t))

  -- Two payloads that differ only in values under sensitive keys, at any depth, have the same
  -- redacted copy: nothing of such a value reaches the output.
  pub redact_hides : (v w : Json) → Similar v w → redact u v ≡ redact u w
  redact_hides v w h = redact-Similar h

  -- The aliases with two capitals in a row escape the key test: the value of `batchID`,
  -- `transferID` or `paymentID` is copied with only the patterns of `redact_text` masked.
  pub redact_misses_capital_aliases :
      (k s : String)
      → (k ≡ "batchID") ⊎ (k ≡ "transferID") ⊎ (k ≡ "paymentID")
      → redact u (obj (field k (str s) end)) ≡ obj (field k (str (redact_text u s)) end)
  unfolding redact is_sensitive_key
  redact_misses_capital_aliases k s (inl e) = rw e
  redact_misses_capital_aliases k s (inr (inl e)) = rw e
  redact_misses_capital_aliases k s (inr (inr e)) = rw e
