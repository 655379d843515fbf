-- ===== src/Codec.antt =====
-- What the program takes from third-party crates to write values as text: uuid's and jiff's
-- `Display` and `FromStr`, and serde_json on a list of conditions. They are parameters. `Json` is
-- the type of the JSON documents, which the database stores and hands back and never looks into. An
-- error is its text.
use mc_control_plane.Base.{String, List, Result, ok, ◌≡◌}
use mc_control_plane.Protocol.{Uuid, Timestamp, Condition}

pub record Codec : Type 1 where
  pub Json : Type 0
  pub uuid_to_string : Uuid → String
  pub uuid_from_str : String → Result String Uuid
  pub timestamp_to_string : Timestamp → String
  pub timestamp_from_str : String → Result String Timestamp
  pub conditions_to_json : List Condition → Result String Json
  pub conditions_from_json : Json → Result String (List Condition)

-- The documented behaviour that some theorems assume: what was written is read back.
pub record IsFaithful (c : Codec) : Type 0 where
  pub uuid_roundtrip : (u : Uuid) → c.uuid_from_str (c.uuid_to_string u) ≡ ok u
  pub timestamp_roundtrip : (t : Timestamp) → c.timestamp_from_str (c.timestamp_to_string t) ≡ ok t
  pub json_roundtrip :
      (cs : List Condition) (j : c.Json)
      → c.conditions_to_json cs ≡ ok j
      → c.conditions_from_json j ≡ ok cs
