-- ===== src/Goose/Supervision.antt =====
-- What is superseded stays silent: retransmissions of an earlier state, and timers of an earlier message.
use go_iec.Base.{
  ℕ, ◌^◌, ◌<◌, ◌≡◌, ◌≢◌, refl, Bool, true, false, none, some, List, ◌∷◌, length, ◌==◌,
  equal_bytes_refl, arith,
}
use go_iec.Base.Maps.{lookup, lookup-insert}
use go_iec.Goose.{Message, next_num}
use go_iec.Goose.Publisher.{
  Publisher, Loop, send, message, widest, publish_locked, publish, refresh, round, is_open,
}
use go_iec.Goose.Subscriber.{
  SeqState, Subscription, matches, check, track, supervise, on_message, on_timer,
}
use go_iec.Goose.Stream.{on_message-taken}

round-superseded :
    {V : Type 0} (again : Bool) (l : Loop V) (q : Publisher V)
    → is_open l.stop q.stop ≡ false
    → round again l q ≡ (none, q)
unfolding round
round-superseded again l q e = rw e refl

publish-stop :
    {V : Type 0} (marshal : Message V → List ℕ) (values : List V) (now : ℕ) (sends : Bool)
    (p : Publisher V)
    → p.closed ≡ false
    → length (marshal (widest (message values (next_num p.st_num) true now p))) < 1501
    → (publish marshal values now sends p).2.stop ≡ some p.channels
unfolding publish publish_locked send
publish-stop marshal values now true p h fits = ground arith
publish-stop marshal values now false p h fits = ground arith

-- After a `Publish` on an open publisher of a message that fits a frame, a goroutine that was started before it sends nothing any more
-- and ends.
pub publish-round :
    {V : Type 0} (marshal : Message V → List ℕ) (values : List V) (now : ℕ) (sends again : Bool)
    (l : Loop V) (p : Publisher V)
    → p.closed ≡ false
    → length (marshal (widest (message values (next_num p.st_num) true now p))) < 1501
    → l.stop < p.channels
    → let p' = (publish marshal values now sends p).2 in round again l p' ≡ (none, p')
publish-round marshal values now sends again l p h fits old =
    let q = (publish marshal values now sends p).2 in
    round-superseded again l q (rw (publish-stop marshal values now sends p h fits) (ground arith))

-- A message with a time allowed to live, which a running and supervised subscription takes, takes the report away from the timer of the message before
-- it: the old timer, though it may have begun to fire, reports nothing.
pub on_message-on_timer :
    {V : Type 0} (m : Message V) (now : ℕ) (sub : Subscription V) (st : SeqState)
    → sub.stopped ≡ false
    → sub.supervised ≡ true
    → matches sub.filter m ≡ true
    → 0 < m.time_allowed_to_live
    → lookup m.go_cb_ref sub.states ≡ some st
    → st.gen < 2 ^ 64
    → on_timer m.go_cb_ref st.gen (on_message m now sub) ≡ on_message m now sub
unfolding on_timer
on_message-on_timer m now sub st running supervised fits live known range =
    let (_, next) = track (lookup m.go_cb_ref sub.states) m now sub.supervised in
    let gen : (next.gen == st.gen) ≡ false = unfold track supervise in rw known (ground arith) in
    let found = lookup-insert m.go_cb_ref m.go_cb_ref next sub.states in
    rw (on_message-taken m now sub running fits)
      (rw (found, equal_bytes_refl m.go_cb_ref) (rw gen refl))

-- `Refresh` of a state that has been published, in a message that fits a frame, sends sqNum 0 under the stNum that a subscriber has seen, and the subscriber takes it for a
-- gap, whatever sqNum came before.
pub refresh-check :
    {V : Type 0} (marshal : Message V → List ℕ) (values : List V) (now at : ℕ) (p : Publisher V)
    (st : SeqState)
    → p.closed ≡ false
    → p.st_num ≢ 0
    → length (marshal (widest (message values p.st_num false now p))) < 1501
    → st.st_num ≡ p.st_num
    → (m : Message V) × ((refresh marshal values now true p).2.sent ≡ m ∷ p.sent)
      × ((check st m at).sq_num_gap ≡ true)
unfolding refresh publish_locked send
refresh-check marshal values now at p st h nonzero fits same =
    (message values p.st_num false now p, ground arith, unfold check message in ground arith)
