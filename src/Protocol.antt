-- ===== src/Protocol.antt =====
-- server/data.go: the protocol message `Data` and its `ClientData`, and the interface of the JSON
-- codec that server/jsonFuncs.go calls (`Encode` and `Decode` wrap `json.Marshal` and
-- `json.Unmarshal`, which are parameters here).
use nvda_remote_server.Common.{Bool, false, Option, none, Bytes, List, [], ◌≡◌, ◌≢◌, some}
use nvda_remote_server.Common.Int.{ℤ, pos}

pub record ClientData : Type 0 where
  pub id : ℤ
  pub connection_type : Bytes

pub record Data : Type 0 where
  pub type : Bytes
  pub channel : Bytes
  pub connection_type : Bytes
  pub version : ℤ
  pub origin : ℤ
  pub key : Bytes
  pub id : ℤ
  pub user_ids : List ℤ
  pub clients : List ClientData
  pub client : Option ClientData
  pub error : Bytes
  pub motd : Bytes
  pub motd_always_display : Bool

-- `Data{}`, every field at its zero value.
abbrev pub zero_data : Data
zero_data = record {
  type = [];
  channel = [];
  connection_type = [];
  version = pos 0;
  origin = pos 0;
  key = [];
  id = pos 0;
  user_ids = [];
  clients = [];
  client = none;
  error = [];
  motd = [];
  motd_always_display = false;
}

-- `json.Marshal` and `json.Unmarshal` at the type `Data`; `none` is an error. A text that
-- `Marshal` returns is never empty.
pub record Codec : Type 0 where
  pub encode : Data → Option Bytes
  pub decode : Bytes → Option Data
  pub encode-ne-nil : (d : Data) (b : Bytes) → encode d ≡ some b → b ≢ []
