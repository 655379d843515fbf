-- ===== src/Tests/Sample.antt =====
-- Texts, requests and databases for the tests. A number is written in strokes, and a JSON document is
-- the list of conditions itself.
use Prim.Native.String.{String}
use mc_control_plane.Base.{ℕ, zero, suc, List, [], ◌≡◌, refl, ap, ok}
use mc_control_plane.Protocol.{HostClaimSpec, Condition}
use mc_control_plane.Codec.{Codec, IsFaithful}
use mc_control_plane.Storage.Tables.{Db}
use mc_control_plane.Rpc.{RpcContext}

abbrev strokes : ℕ → String
strokes zero = String.[]
strokes (suc n) = String.◌∷◌ "I" (strokes n)

abbrev count : String → ℕ
count String.[] = 0
count (String.◌∷◌ c s) = suc (count s)

count-strokes : (n : ℕ) → count (strokes n) ≡ n
count-strokes zero = refl
count-strokes (suc n) = ap suc (count-strokes n)

abbrev pub sample_codec : Codec
sample_codec = record {
  Json = List Condition;
  uuid_to_string = strokes;
  uuid_from_str = λ s. ok (count s);
  timestamp_to_string = strokes;
  timestamp_from_str = λ s. ok (count s);
  conditions_to_json = λ cs. ok cs;
  conditions_from_json = λ cs. ok cs;
}

pub sample_codec-IsFaithful : IsFaithful sample_codec
sample_codec-IsFaithful = record {
  uuid_roundtrip = λ u. ap ok (count-strokes u);
  timestamp_roundtrip = λ t. ap ok (count-strokes t);
  json_roundtrip = λ cs j e. cc e;
}

abbrev pub empty_db : Db sample_codec
empty_db = record { host_claims = []; hosts = [] }

abbrev pub context : RpcContext
context = record { binary_version = "0.1.0"; rust_version = "1.89"; started_at = 1 }

abbrev pub small : HostClaimSpec
small = record { resources = record { vcpus = 2; memory_bytes = 4096; storage_bytes = 8192 } }

abbrev pub large : HostClaimSpec
large = record { resources = record { vcpus = 4; memory_bytes = 4096; storage_bytes = 8192 } }
