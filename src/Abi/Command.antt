-- ===== src/Abi/Command.antt =====
-- pkg/controller/src/abi/abicommand.rs: requests of an operator, and results sent back to it.
use wasm_operator.Base.{ℕ, Bool, Option, List}

-- `bytes::Bytes` and `Vec<u8>`.
abbrev pub Bytes : Type 0
Bytes = List ℕ

pub record AsyncResult : Type 0 where
  pub async_request_id : ℕ  -- u64
  pub value : Option Bytes
  pub finished : Bool

-- `Req` is `http::Request<Vec<u8>>`; a delay is a number of milliseconds.
pub data AsyncRequestValue (Req : Type 0) : Type 0 where
  http : Req → AsyncRequestValue Req
  http_stream : Req → AsyncRequestValue Req
  delay : ℕ → AsyncRequestValue Req
