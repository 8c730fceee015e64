-- ===== src/Ingest/RingBuffer/Invariant.antt =====
-- firemex/ingest/ringbuffer.py: what the buffer holds after a push.
use fireme_x.Base.{
  All-append, ℕ, ◌+◌, ◌≤◌, ◌<◌, ◌≡◌, Bool, some, List, [], ◌∷◌, ◌++◌, arith, All, length,
  Bool-cases, inl, inr,
}
use fireme_x.Base.Deque.{
  append, drop_while, length-append_le, length-drop_while_le, append-All, drop_while-All,
  last?-append_bounded, last?-drop_while,
}
use fireme_x.Ingest.RingBuffer.{Image, Entry, FrameRingBuffer, is_old, push, latest}

-- the entries stand in the order of their times
abbrev pub Ascending : List Entry → Type 0
Ascending [] = Unit
Ascending (x ∷ xs) = All (λ y. x.0 ≤ y.0) xs × Ascending xs

Ascending-snoc :
    (ts : ℕ) (image : Image) (xs : List Entry)
    → All (λ x. x.0 ≤ ts) xs
    → Ascending xs
    → Ascending (xs ++ (ts, image) ∷ [])
Ascending-snoc ts image [] h a = (tt, tt)
Ascending-snoc ts image (x ∷ xs) h a = (
  All-append (λ y. x.0 ≤ y.0) xs ((ts, image) ∷ []) a.0 (h.0, tt),
  Ascending-snoc ts image xs h.1 a.1,
)

append-Ascending :
    (n ts : ℕ) (image : Image) (xs : List Entry)
    → All (λ x. x.0 ≤ ts) xs
    → Ascending xs
    → Ascending (append n xs (ts, image))
unfolding append
append-Ascending n ts image [] h a = ground arith
append-Ascending n ts image (x ∷ xs) h a = ground (arith, Ascending-snoc ts image (x ∷ xs) h a)

drop_while-Ascending :
    (old : Entry → Bool) (xs : List Entry) → Ascending xs → Ascending (drop_while old xs)
unfolding drop_while
drop_while-Ascending old [] a = a
drop_while-Ascending old (x ∷ xs) a = ground (arith, drop_while-Ascending old xs a.1)

All-earlier :
    (now ts : ℕ) (xs : List Entry) → now ≤ ts → All (λ x. x.0 ≤ now) xs → All (λ x. x.0 ≤ ts) xs
All-earlier now ts [] h k = tt
All-earlier now ts (x ∷ xs) h k = (omega (arith, k.0), All-earlier now ts xs h k.1)

All-young :
    (seconds ts t : ℕ) (xs : List Entry)
    → ts ≤ t + seconds
    → All (λ y. t ≤ y.0) xs
    → All (λ y. ts ≤ y.0 + seconds) xs
All-young seconds ts t [] h k = tt
All-young seconds ts t (x ∷ xs) h k = (omega (arith, k.0), All-young seconds ts t xs h k.1)

drop_while-young :
    (seconds ts : ℕ) (xs : List Entry)
    → Ascending xs
    → All (λ y. ts ≤ y.0 + seconds) (drop_while (is_old seconds ts) xs)
unfolding drop_while
drop_while-young seconds ts [] a = tt
drop_while-young seconds ts (x ∷ xs) a = elim (Bool-cases (is_old seconds ts x)) [
  | inl old ↦ rw old (drop_while-young seconds ts xs a.1)
  | inr young ↦ rw young ((ground arith), All-young seconds ts x.0 xs (ground arith) a.0)
]

-- A buffer that keeps to its cap, whose entries ascend in time and lie no later than `now`.
pub record IsBuffer (now : ℕ) (b : FrameRingBuffer) : Type 0 where
  pub capped : length b.frames ≤ b.max_frames
  pub ascending : Ascending b.frames
  pub past : All (λ x. x.0 ≤ now) b.frames

-- A frame that is pushed at a time no earlier than the buffer's last leaves a buffer that keeps to its
-- frame cap, is ordered by time, holds no frame from the future and none older than the buffer's
-- duration, and whose latest image is the one pushed.
pub push-IsBuffer :
    (now ts : ℕ) (image : Image) (b : FrameRingBuffer)
    → 0 < b.max_frames
    → now ≤ ts
    → IsBuffer now b
    → IsBuffer ts (push ts image b)
      × All (λ x. ts ≤ x.0 + b.seconds) (push ts image b).frames
      × (latest (push ts image b) ≡ some image)
unfolding push latest
push-IsBuffer now ts image b some_room later h =
    let past : All (λ x. x.0 ≤ ts) b.frames = All-earlier now ts b.frames later h.past in
    let grown : List Entry = append b.max_frames b.frames (ts, image) in
    let asc : Ascending grown = append-Ascending b.max_frames ts image b.frames past h.ascending in
    (
      record {
        capped = omega (
          arith,
          length-drop_while_le (is_old b.seconds ts) grown,
          length-append_le b.max_frames b.frames (ts, image) h.capped,
        );
        ascending = drop_while-Ascending (is_old b.seconds ts) grown asc;
        past =
            drop_while-All (λ x. x.0 ≤ ts) (is_old b.seconds ts) grown
              (append-All (λ x. x.0 ≤ ts) b.max_frames b.frames (ts, image) past (omega arith));
      },
      drop_while-young b.seconds ts grown asc,
      ground (
        arith,
        last?-drop_while (is_old b.seconds ts) grown (ts, image)
            (last?-append_bounded b.max_frames b.frames (ts, image) some_room),
      ),
    )
