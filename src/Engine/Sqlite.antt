-- ===== src/Engine/Sqlite.antt =====
-- modernc.org/sqlite, which is not among these sources: a content, and how it is serialized and
-- deserialized.
use execdb.Prelude.{Option, some, Bytes, ◌≡◌}

-- What `Serialize` gives, and `Deserialize` restores.
pub record Sqlite : Type 1 where
  pub Content : Type 0
  pub empty : Content
  pub serialize : Content → Option Bytes
  pub deserialize : Bytes → Option Content
  pub restores : (c : Content) (blob : Bytes) → serialize c ≡ some blob → deserialize blob ≡ some c
