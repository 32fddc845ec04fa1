-- ===== src/Goose/Stream.antt =====
-- A subscription on a stream of messages that comes over a link that loses nothing.
use go_iec.Base.{
  ℕ, ◌^◌, ◌<◌, ◌≡◌, ◌⊎◌, inl, inr, refl, ap, Bool, true, false, Option, none, some, List, [], ◌∷◌,
  map, length, All, equal_bytes, equal_bytes_refl, arith,
}
use go_iec.Base.Maps.{lookup, insert, lookup-insert}
use go_iec.Goose.{Message, next_num}
use go_iec.Goose.Publisher.{Config}
use go_iec.Goose.Subscriber.{
  Filter, matches, Anomalies, SeqState, Subscription, check, first_check, supervise, track,
  on_message,
}

-- One message after another: the next number of a state, or a new state.
abbrev Follows : {V : Type 0} → Message V → Message V → Type 0
Follows m e =
    (e.st_num < 2 ^ 32)
    × ((m.st_num ≡ e.st_num) × (m.sq_num ≡ next_num e.sq_num)
        ⊎ (m.st_num ≡ next_num e.st_num) × (m.sq_num ≡ 0))

check-Follows :
    {V : Type 0} (st : SeqState) (m e : Message V) (now : ℕ)
    → st.st_num ≡ e.st_num
    → st.sq_num ≡ e.sq_num
    → Follows m e
    → ((check st m now).st_num_regressed ≡ false) × ((check st m now).sq_num_gap ≡ false)
unfolding check
check-Follows st m e now hs hq (bound, inl same) = ground arith
check-Follows st m e now hs hq (bound, inr change) = ground arith

-- A filter that takes the control block's messages.
pub record IsFor (f : Filter) (cfg : Config) : Type 0 where
  pub app : (f.app_id ≡ 0) ⊎ (f.app_id ≡ cfg.app_id)
  pub ref : (f.go_cb_ref ≡ []) ⊎ (f.go_cb_ref ≡ cfg.go_cb_ref)

module _ {V : Type 0} where
  -- A list of messages, the latest first, each of which follows the one before.
  unfoldable pub Chain : List (Message V) → Type 0
  Chain [] = Unit {0}
  Chain (m ∷ []) = Unit {0}
  Chain (m ∷ e ∷ earlier) = Follows m e × Chain (e ∷ earlier)

  -- The link brings each message at a time of its own.
  pub receive_all : (ℕ → ℕ) → Subscription V → List (Message V) → Subscription V
  receive_all arrives sub [] = sub
  receive_all arrives sub (m ∷ earlier) =
      on_message m (arrives (length earlier)) (receive_all arrives sub earlier)

  -- A message of the control block.
  abbrev pub Same : Config → Message V → Type 0
  Same cfg m = (m.go_cb_ref ≡ cfg.go_cb_ref) × (m.app_id ≡ cfg.app_id)

  matches-IsFor :
      (f : Filter) (cfg : Config) (m : Message V) → IsFor f cfg → Same cfg m → matches f m ≡ true
  unfolding matches
  matches-IsFor f cfg m h (ref, app) = elim h.ref [
    | inl r ↦ rw r (ground arith)
    | inr r ↦
        let same : equal_bytes m.go_cb_ref f.go_cb_ref ≡ true =
          rw (ref, r) (equal_bytes_refl cfg.go_cb_ref) in
        ground arith
  ]

  -- The subscription knows the numbers of the latest message.
  pub Knows : Config → List (Message V) → Subscription V → Type 0
  Knows cfg [] sub = lookup cfg.go_cb_ref sub.states ≡ none
  Knows cfg (m ∷ _) sub =
      (st : SeqState) × (lookup cfg.go_cb_ref sub.states ≡ some st)
      × (st.st_num ≡ m.st_num)
      × (st.sq_num ≡ m.sq_num)

  -- A delivered message that is not flagged.
  abbrev pub Clean : Message V × Anomalies → Type 0
  Clean (m, a) = (a.st_num_regressed ≡ false) × (a.sq_num_gap ≡ false)

  track-numbers :
      (o : Option SeqState) (m : Message V) (now : ℕ) (supervised : Bool)
      → ((track o m now supervised).1.st_num ≡ m.st_num)
        × ((track o m now supervised).1.sq_num ≡ m.sq_num)
  unfolding track supervise
  track-numbers none m now supervised = ground arith
  track-numbers (some st) m now supervised = ground arith

  -- A message that is taken.
  pub on_message-taken :
      (m : Message V) (now : ℕ) (sub : Subscription V)
      → sub.stopped ≡ false
      → matches sub.filter m ≡ true
      → let r = track (lookup m.go_cb_ref sub.states) m now sub.supervised in
        on_message m now sub ≡ record sub {
          states = insert m.go_cb_ref r.1 sub.states;
          delivered = (m, r.0) ∷ sub.delivered;
        }
  unfolding on_message
  on_message-taken m now sub h k = rw (h, k) refl

  Knows-next :
      (cfg : Config) (m : Message V) (earlier : List (Message V)) (now : ℕ) (sub : Subscription V)
      → sub.stopped ≡ false
      → matches sub.filter m ≡ true
      → Same cfg m
      → Knows cfg (m ∷ earlier) (on_message m now sub)
  unfolding Knows
  Knows-next cfg m earlier now sub h k (ref, _) =
      let o = lookup m.go_cb_ref sub.states in
      let st = (track o m now sub.supervised).1 in
      let (a, b) = track-numbers o m now sub.supervised in
      rw (on_message-taken m now sub h k) (
        st,
        rw
            (
              ← ref,
              lookup-insert m.go_cb_ref m.go_cb_ref st sub.states,
              equal_bytes_refl m.go_cb_ref,
            )
            refl,
        a,
        b,
      )

  track-Clean :
      (cfg : Config) (m : Message V) (earlier : List (Message V)) (now : ℕ) (sub : Subscription V)
      → Same cfg m
      → Knows cfg earlier sub
      → Chain (m ∷ earlier)
      → Clean (m, (track (lookup m.go_cb_ref sub.states) m now sub.supervised).0)
  unfolding Knows Chain track check
  track-Clean cfg m [] now sub (ref, _) h c = rw (ref, h) (unfold first_check in (refl, refl))
  track-Clean cfg m (e ∷ earlier) now sub (ref, _) (st, h, a, b) (follows, _) =
      rw (ref, h) (check-Follows st m e now a b follows)

-- What a subscription on the control block `cfg` has come to on the messages.
pub record Served {V : Type 0} (cfg : Config) (sub : Subscription V) (msgs : List (Message V))
    (r : Subscription V) : Type 0 where
  pub running : r.stopped ≡ false
  pub same_filter : r.filter ≡ sub.filter
  pub knows : Knows cfg msgs r
  pub clean : All Clean r.delivered
  pub all_delivered : map (λ d. d.0) r.delivered ≡ msgs

Chain-tail :
    {V : Type 0} (m : Message V) (earlier : List (Message V)) → Chain (m ∷ earlier) → Chain earlier
unfolding Chain
Chain-tail m [] c = tt
Chain-tail m (e ∷ earlier) c = c.1

pub receive_all-Served :
    {V : Type 0} (cfg : Config) (arrives : ℕ → ℕ) (sub : Subscription V) (msgs : List (Message V))
    → sub.stopped ≡ false
    → sub.states ≡ []
    → sub.delivered ≡ []
    → IsFor sub.filter cfg
    → All (Same cfg) msgs
    → Chain msgs
    → Served cfg sub msgs (receive_all arrives sub msgs)
unfolding receive_all
receive_all-Served cfg arrives sub [] running fresh none_yet for same c = record {
  running = running;
  same_filter = refl;
  knows = unfold Knows lookup in rw fresh refl;
  clean = rw none_yet tt;
  all_delivered = rw none_yet refl;
}
receive_all-Served cfg arrives sub (m ∷ earlier) running fresh none_yet for (same, others) c =
    let r = receive_all arrives sub earlier in
    let now = arrives (length earlier) in
    let before =
      receive_all-Served cfg arrives sub earlier running fresh none_yet for others
        (Chain-tail m earlier c) in
    let fits = matches-IsFor r.filter cfg m (rw before.same_filter for) same in
    let taken = on_message-taken m now r before.running fits in
    record {
      running = rw taken before.running;
      same_filter = rw taken before.same_filter;
      knows = Knows-next cfg m earlier now r before.running fits same;
      clean = rw taken (track-Clean cfg m earlier now r same before.knows c, before.clean);
      all_delivered = rw taken (ap (λ ms. m ∷ ms) before.all_delivered);
    }
