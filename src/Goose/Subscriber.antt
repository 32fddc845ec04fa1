-- ===== src/Goose/Subscriber.antt =====
-- goose/subscriber.go: the checks of a subscription on the messages of each control block, and the
-- supervision of their time allowed to live.
use go_iec.Base.{
  ℕ, ◌+◌, ◌-◌, ◌*◌, ◌%◌, ◌^◌, Bool, true, false, not, ◌&&◌, ◌||◌, Option, none, some, List, [], ◌∷◌,
  length, ltb, ◌==◌, equal_bytes, if◌then◌else◌,
}
use go_iec.Base.Maps.{lookup, insert}
use go_iec.Goose.{Message, next_num}

pub record Filter : Type 0 where
  pub app_id : ℕ
  pub go_cb_ref : List ℕ

unfoldable pub matches : {V : Type 0} → Filter → Message V → Bool
matches f m =
    if not (f.app_id == 0) && not (m.app_id == f.app_id)
    then false
    else if not (length f.go_cb_ref == 0) && not (equal_bytes m.go_cb_ref f.go_cb_ref)
    then false
    else true

pub record Anomalies : Type 0 where
  pub st_num_regressed : Bool
  pub sq_num_gap : Bool
  pub stale : Bool
  pub entries_mismatch : Bool

-- `timer` is when the timer of the generation `gen` fires, if it is running.
pub record SeqState : Type 0 where
  pub st_num : ℕ
  pub sq_num : ℕ
  pub tatl : ℕ
  pub arrival : ℕ
  pub timer : Option ℕ
  pub gen : ℕ  -- uint64

-- `supervised` is whether there is an `expired` callback; `delivered` and `expirations` are the calls
-- of the callbacks, the latest first.
pub record Subscription (V : Type 0) : Type 0 where
  pub filter : Filter
  pub supervised : Bool
  pub stopped : Bool
  pub states : List (List ℕ × SeqState)
  pub delivered : List (Message V × Anomalies)
  pub expirations : List (List ℕ)

-- `supervise` starts the timer again.
unfoldable pub supervise : Bool → ℕ → SeqState → SeqState
supervise supervised now st =
    if not supervised || st.tatl == 0
    then st
    else record st { gen = (st.gen + 1) % 2 ^ 64; timer = some (now + st.tatl) }

-- The checks against the last message of the control block.
unfoldable pub check : {V : Type 0} → SeqState → Message V → ℕ → Anomalies
check st m now =
    let wrapped = st.st_num == 2 ^ 32 - 1 && m.st_num == 1 in
    record {
      st_num_regressed = ltb m.st_num st.st_num && not wrapped;
      sq_num_gap =
          if m.st_num == st.st_num
          then not (m.sq_num == next_num st.sq_num)
          else not (m.sq_num == 0);
      stale = ltb 0 st.tatl && ltb st.tatl (now - st.arrival);
      entries_mismatch = not (m.num_dat_set_entries == length m.values);
    }

-- What the first message of a control block is checked for.
unfoldable pub first_check : {V : Type 0} → Message V → Anomalies
first_check m = record {
  st_num_regressed = false;
  sq_num_gap = false;
  stale = false;
  entries_mismatch = not (m.num_dat_set_entries == length m.values);
}

unfoldable pub track : {V : Type 0} → Option SeqState → Message V → ℕ → Bool → Anomalies × SeqState
track none m now supervised = (
  first_check m,
  supervise supervised now (record {
    st_num = m.st_num;
    sq_num = m.sq_num;
    tatl = m.time_allowed_to_live * 1000000;
    arrival = now;
    timer = none;
    gen = 0;
  }),
)
track (some st) m now supervised = (
  check st m now,
  supervise supervised now (record st {
    st_num = m.st_num;
    sq_num = m.sq_num;
    tatl = m.time_allowed_to_live * 1000000;
    arrival = now;
  }),
)

-- `stop` stops every timer.
halt : List (List ℕ × SeqState) → List (List ℕ × SeqState)
halt [] = []
halt ((ref, st) ∷ m) = (ref, record st { timer = none }) ∷ halt m

module _ {V : Type 0} where
  -- A message that the frame's decoder returned, in the loop of `run`.
  unfoldable pub on_message : Message V → ℕ → Subscription V → Subscription V
  on_message m now sub =
      let (a, st) = track (lookup m.go_cb_ref sub.states) m now sub.supervised in
      if sub.stopped || not (matches sub.filter m) then sub else record sub {
        states = insert m.go_cb_ref st sub.states;
        delivered = (m, a) ∷ sub.delivered;
      }

  -- A timer of the generation `gen` that fires, or had begun to when it was stopped.
  unfoldable pub on_timer : List ℕ → ℕ → Subscription V → Subscription V
  on_timer ref gen sub =
      let current = elim (lookup ref sub.states) as (λ _. Bool) [
        | some st ↦ st.gen == gen
        | none ↦ false
      ] in
      if current && not sub.stopped then record sub { expirations = ref ∷ sub.expirations } else sub

  pub stop : Subscription V → Subscription V
  stop sub = record sub { stopped = true; states = halt sub.states }
