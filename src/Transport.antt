-- ===== src/Transport.antt =====
-- transport.py: requests, responses, and the outcomes of a transport.
use jibit_ir_sdk.Prelude.{ℕ, String, Option, List}
use jibit_ir_sdk.Prelude.Dict.{Dict}
use jibit_ir_sdk.Json.{Json}
use jibit_ir_sdk.Config.{TimeoutConfig}
use jibit_ir_sdk.Types.{MultipartPart}

abbrev pub Bytes : Type 0
Bytes = List ℕ

pub record TransportRequest : Type 0 where
  pub method : String
  pub url : String
  pub headers : Dict String
  pub params : Json
  pub json : Json
  pub content : Option Bytes
  pub multipart : Option (List MultipartPart)
  pub timeout : TimeoutConfig

pub record TransportResponse : Type 0 where
  pub status_code : ℕ
  pub headers : Dict String
  pub content : Bytes

-- What `send` does: it returns, or raises one of the two transport errors, or something else.
pub data Reply : Type 0 where
  responded : TransportResponse → Reply
  timed_out network_failed crashed : Reply
