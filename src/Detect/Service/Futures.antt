-- ===== src/Detect/Service/Futures.antt =====
-- firemex/detect/service.py: a future is settled once, and with the result of its own frame.
use fireme_x.Base.{
  ◌∙◌, ℕ, suc, ◌≤◌, ◌≡◌, ◌≢◌, true, refl, All, Option, none, some, List, [], ◌∷◌, arith,
}
use fireme_x.Base.Dict.{lookup, lookup-insert}
use fireme_x.Detect.Frames.{Detection, FrameResult}
use fireme_x.Detect.Service.{Job, Outcome, result, Futures, is_done, settle, answer, result_of}

pub settle_once :
    (k i : ℕ) (outcome v : Outcome) (fs : Futures)
    → lookup i fs ≡ some v
    → lookup i (settle k outcome fs) ≡ some v
unfolding settle
settle_once k i outcome v fs e = ground (arith, lookup-insert i k outcome fs)

pub settle_done :
    (k : ℕ) (outcome : Outcome) (fs : Futures) → is_done k (settle k outcome fs) ≡ true
unfolding settle
settle_done k outcome fs = ground (arith, lookup-insert k k outcome fs)

pub settle_other :
    (k i : ℕ) (outcome : Outcome) (fs : Futures)
    → i ≢ k
    → lookup i (settle k outcome fs) ≡ lookup i fs
unfolding settle
settle_other k i outcome fs ne = ground (arith, lookup-insert i k outcome fs)

-- the futures of the jobs rise strictly, above the bound
abbrev pub RisingJobs : ℕ → List Job → Type 0
RisingJobs lo [] = Unit
RisingJobs lo (j ∷ js) = (lo ≤ j.future) × RisingJobs (suc j.future) js

-- a job's future holds a result of its own frame: its camera, its times, its night, its number, its
-- detections and its share of the time
pub record IsAnswer (ms : ℕ) (j : Job) (d : List Detection) (o : Option Outcome) : Type 0 where
  pub answer : FrameResult
  pub settled : o ≡ some (result answer)
  pub camera_id : answer.camera_id ≡ j.frame.camera_id
  pub monotonic_ts : answer.monotonic_ts ≡ j.frame.monotonic_ts
  pub wall_ts : answer.wall_ts ≡ j.frame.wall_ts
  pub is_night : answer.is_night ≡ j.frame.is_night
  pub sequence : answer.sequence ≡ j.frame.sequence
  pub detections : answer.detections ≡ d
  pub inference_ms : answer.inference_ms ≡ ms

-- every job whose future was not done before is answered, where there is a list for it
abbrev pub Answered : ℕ → Futures → Futures → List Job → List (List Detection) → Type 0
Answered ms before fs (j ∷ js) (d ∷ ds) =
    (lookup j.future before ≡ none → IsAnswer ms j d (lookup j.future fs))
    × Answered ms before fs js ds
Answered ms before fs js ds = Unit

pub answer_once :
    (ms : ℕ) (js : List Job) (ds : List (List Detection)) (fs : Futures) (i : ℕ) (v : Outcome)
    → lookup i fs ≡ some v
    → lookup i (answer ms js ds fs) ≡ some v
unfolding answer
answer_once ms [] ds fs i v e = e
answer_once ms (j ∷ js) [] fs i v e = e
answer_once ms (j ∷ js) (d ∷ ds) fs i v e =
    answer_once ms js ds (settle j.future (result (result_of ms j d)) fs) i v
      (settle_once j.future i (result (result_of ms j d)) v fs e)

RisingJobs-weaken : (lo lo' : ℕ) (js : List Job) → lo ≤ lo' → RisingJobs lo' js → RisingJobs lo js
RisingJobs-weaken lo lo' [] h r = tt
RisingJobs-weaken lo lo' (j ∷ js) h r = (omega (arith, r.0), r.1)

-- the futures of the jobs are as before
Agrees : Futures → Futures → List Job → Type 0
Agrees before fs js = All (λ j. lookup j.future fs ≡ lookup j.future before) js

Agrees-settle :
    (k : ℕ) (outcome : Outcome) (before fs : Futures) (js : List Job)
    → RisingJobs (suc k) js
    → Agrees before fs js
    → Agrees before (settle k outcome fs) js
unfolding Agrees
Agrees-settle k outcome before fs [] r p = tt
Agrees-settle k outcome before fs (j ∷ js) r p = (
  settle_other k j.future outcome fs (λ e. omega (arith, e, r.0)) ∙ p.0,
  Agrees-settle k outcome before fs js
      (RisingJobs-weaken (suc k) (suc j.future) js (omega (arith, r.0)) r.1) p.1,
)

Agrees-refl : (fs : Futures) (js : List Job) → Agrees fs fs js
unfolding Agrees
Agrees-refl fs [] = tt
Agrees-refl fs (j ∷ js) = (refl, Agrees-refl fs js)

result_of-IsAnswer :
    (ms : ℕ) (j : Job) (d : List Detection) (o : Option Outcome)
    → o ≡ some (result (result_of ms j d))
    → IsAnswer ms j d o
result_of-IsAnswer ms j d o e = record {
  answer = result_of ms j d;
  settled = e;
  camera_id = refl;
  monotonic_ts = refl;
  wall_ts = refl;
  is_night = refl;
  sequence = refl;
  detections = refl;
  inference_ms = refl;
}

answer-Answered_from :
    (ms lo : ℕ) (js : List Job) (ds : List (List Detection)) (before fs : Futures)
    → RisingJobs lo js
    → Agrees before fs js
    → Answered ms before (answer ms js ds fs) js ds
unfolding answer settle Agrees
answer-Answered_from ms lo [] ds before fs r p = tt
answer-Answered_from ms lo (j ∷ js) [] before fs r p = tt
answer-Answered_from ms lo (j ∷ js) (d ∷ ds) before fs r p =
    let outcome : Outcome = result (result_of ms j d) in
    (
      λ pending.
          let fresh : lookup j.future fs ≡ none = p.0 ∙ pending in
          result_of-IsAnswer ms j d (lookup j.future (answer ms js ds (settle j.future outcome fs)))
            (answer_once ms js ds (settle j.future outcome fs) j.future outcome
              (ground (arith, fresh, lookup-insert j.future j.future outcome fs))),
      answer-Answered_from ms (suc j.future) js ds before (settle j.future outcome fs) r.1
          (Agrees-settle j.future outcome before fs js r.1 p.1),
    )

pub answer-Answered :
    (ms lo : ℕ) (js : List Job) (ds : List (List Detection)) (fs : Futures)
    → RisingJobs lo js
    → Answered ms fs (answer ms js ds fs) js ds
answer-Answered ms lo js ds fs r = answer-Answered_from ms lo js ds fs fs r (Agrees-refl fs js)
