-- ===== src/Stream/Frame.antt =====
-- src/stream/frame.rs: a decoded frame and its flags. The field `data` is named `payload` here.
use v3mtp.Prelude.{ℕ, Bool, true, false, List}

pub record FrameMeta : Type 0 where
  pub quickack : Bool
  pub simple_ack : Bool
  pub padding_len : ℕ

pub record Frame : Type 0 where
  pub payload : List ℕ
  pub meta : FrameMeta

abbrev pub default_meta : FrameMeta
default_meta = record { quickack = false; simple_ack = false; padding_len = 0 }

abbrev pub with_meta : List ℕ → FrameMeta → Frame
with_meta payload meta = record { payload = payload; meta = meta }

abbrev pub new : List ℕ → Frame
new payload = with_meta payload default_meta

abbrev pub quickack : List ℕ → Frame
quickack payload = with_meta payload (record default_meta { quickack = true })

abbrev pub simple_ack : List ℕ → Frame
simple_ack payload = with_meta payload (record default_meta { simple_ack = true })
