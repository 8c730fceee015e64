-- ===== src/Ingest/RingBuffer.antt =====
-- firemex/ingest/ringbuffer.py: `FrameRingBuffer`. An entry is a time, in ticks, and an image, which a
-- number stands for. `entry < ts - seconds` is written as a sum, since the cutoff may lie before tick 0.
use fireme_x.Base.{ℕ, ◌+◌, Bool, Option, none, some, List, [], ltb, leb, keep, last?, map}
use fireme_x.Base.Deque.{append, drop_while}
pub mod Invariant

abbrev pub Image : Type 0
Image = ℕ

abbrev pub Entry : Type 0
Entry = ℕ × Image

pub record FrameRingBuffer : Type 0 where
  pub seconds : ℕ
  pub max_frames : ℕ
  pub frames : List Entry

-- `FrameRingBuffer(seconds, max_frames)`
abbrev pub new_buffer : ℕ → ℕ → FrameRingBuffer
new_buffer seconds max_frames = record { seconds = seconds; max_frames = max_frames; frames = [] }

-- `entry[0] < cutoff`
abbrev pub is_old : ℕ → ℕ → Entry → Bool
is_old seconds ts entry = ltb (entry.0 + seconds) ts

unfoldable pub push : ℕ → Image → FrameRingBuffer → FrameRingBuffer
unfolding append drop_while
push ts image b = record b {
  frames = drop_while (is_old b.seconds ts) (append b.max_frames b.frames (ts, image));
}

unfoldable pub since : ℕ → FrameRingBuffer → List Entry
since ts b = keep (λ entry. leb ts entry.0) b.frames

abbrev pub image_of : Option Entry → Option Image
image_of none = none
image_of (some entry) = some entry.1

unfoldable pub latest : FrameRingBuffer → Option Image
latest b = image_of (last? b.frames)

abbrev pub clear : FrameRingBuffer → FrameRingBuffer
clear b = record b { frames = [] }
