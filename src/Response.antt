-- ===== src/Response.antt =====
-- response.py: what a call returns.
use jibit_ir_sdk.Prelude.{ℕ, String, Bool, Option, none, some}
use jibit_ir_sdk.Prelude.Dict.{Dict}
use jibit_ir_sdk.Json.{Json}
use jibit_ir_sdk.Transport.{Bytes}
use jibit_ir_sdk.Exceptions.{response, empty_context, jibit}
use jibit_ir_sdk.Effects.{Environment, Outcome, ok, raised}

pub record RawResponse : Type 0 where
  pub status_code : ℕ
  pub headers : Dict String
  pub content : Bytes
  pub correlation_id : String

pub record ApiResponse (A : Type 0) : Type 0 where
  pub result : A
  pub raw : RawResponse

pub record StatusResult : Type 0 where
  pub success : Bool
  pub status_code : ℕ
  pub raw_body : Option Bytes

abbrev or_response_error : RawResponse → Option Json → Outcome Json
or_response_error raw (some v) = ok v
or_response_error raw none = raised (
    jibit (record {
      type = response;
      context = record empty_context {
        status_code = some raw.status_code;
        correlation_id = some raw.correlation_id;
      };
    }))

-- `RawResponse.json`
unfoldable pub json : Environment → RawResponse → Outcome Json
json env raw = or_response_error raw (env.loads raw.content)
