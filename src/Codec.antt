-- ===== src/Codec.antt =====
-- The codec (`Codec` of libkbfs/interfaces.go over the vendored go-codec) at one type of entries: a
-- parameter of the journals, which rely on this law alone.
use kbfs.Prelude.{◌≡◌, Result, ok}
use kbfs.FileStore.{Bytes}

pub record Codec (E : Type 0) : Type 0 where
  pub encode : E → Result Bytes
  pub decode : Bytes → Result E
  pub decode-encode : (e : E) (b : Bytes) → encode e ≡ ok b → decode b ≡ ok e
