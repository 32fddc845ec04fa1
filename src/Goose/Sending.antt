-- ===== src/Goose/Sending.antt =====
-- The stream that a publisher sends, and what a subscription makes of it.
use go_iec.Base.{
  ℕ, ◌+◌, ◌^◌, ◌<◌, ◌≡◌, ◌⊎◌, inl, inr, refl, ap, true, false, not, Option, none, some, List, [],
  ◌∷◌, map, length, All, ltb, ◌==◌, Bool-cases, if-cases, Result, ok, err, ok-injective, err-ok,
  arith,
}
use mathlib.Core.Path.{subst}
use go_iec.Goose.{Message, next_num}
use go_iec.Goose.Publisher.{
  Error, Config, Publisher, Loop, max_payload, send, message, widest, publish_locked, publish,
  round, is_open, tatl, fresh, complete, all_positive, ref_required, interval_not_positive,
  new_publisher,
}
use go_iec.Goose.Subscriber.{Subscription}
use go_iec.Goose.Stream.{Chain, Same, IsFor, Clean, receive_all, receive_all-Served}

-- What makes a publisher send: a change of state, or the timer of its retransmission.
pub data Event (V : Type 0) : Type 0 where
  publishes : List V → ℕ → Event V
  ticks : Event V

module _ {V : Type 0} (marshal : Message V → List ℕ) where
  abbrev or_keep : Option (Loop V) → Option (Loop V) → Option (Loop V)
  or_keep none l = l
  or_keep (some l') l = some l'

  abbrev tick : Option (Loop V) → Publisher V → Option (Loop V) × Publisher V
  tick none p = (none, p)
  tick (some l) p = round true l p

  -- What a history of events leaves, the latest first: the goroutine that retransmits, the publisher.
  pub run : List (Event V) → Publisher V → Option (Loop V) × Publisher V
  run [] p = (none, p)
  run (publishes values now ∷ history) p =
      let (l, p') = run history p in
      let (_, l', p'') = publish marshal values now true p' in (or_keep l' l, p'')
  run (ticks ∷ history) p = let (l, p') = run history p in tick l p'

-- The goroutine has the numbers that the publisher advertises.
Retransmits : {V : Type 0} → Config → Option (Loop V) → Publisher V → Type 0
Retransmits cfg none p = Unit {0}
Retransmits cfg (some l) p = (l.msg.st_num ≡ p.st_num) × (l.msg.sq_num ≡ p.sq_num) × Same cfg l.msg

-- The latest message has them too.
Advertised : {V : Type 0} → List (Message V) → Publisher V → Type 0
Advertised [] p = Unit {0}
Advertised (m ∷ _) p = (m.st_num ≡ p.st_num) × (m.sq_num ≡ p.sq_num)

record IsStream {V : Type 0} (cfg : Config) (l : Option (Loop V)) (p : Publisher V) : Type 0 where
  same_cfg : p.cfg ≡ cfg
  range : p.st_num < 2 ^ 32
  latest : Advertised p.sent p
  loop : Retransmits cfg l p
  chain : Chain p.sent
  same : All (Same cfg) p.sent

-- A message that follows the latest one goes on with the chain.
Chain-next :
    {V : Type 0} (m : Message V) (p : Publisher V)
    → p.st_num < 2 ^ 32
    → (m.st_num ≡ p.st_num) × (m.sq_num ≡ next_num p.sq_num)
      ⊎ (m.st_num ≡ next_num p.st_num) × (m.sq_num ≡ 0)
    → (sent : List (Message V)) → Advertised sent p
    → Chain sent
    → Chain (m ∷ sent)
unfolding Chain Advertised
Chain-next m p h follows [] latest c = tt
Chain-next m p h follows (e ∷ earlier) (st, sq) c = ((rw st h, rw (st, sq) follows), c)

-- A round of the goroutine keeps the stream.
round-IsStream :
    {V : Type 0} (cfg : Config) (l : Loop V) (p : Publisher V)
    → IsStream cfg (some l) p
    → let (l', p') = round true l p in IsStream cfg l' p'
unfolding round send Retransmits Advertised
round-IsStream {V = V} cfg l p h = elim (Bool-cases (is_open l.stop p.stop)) [
  | inl e ↦
      let (st, sq, same) = h.loop in
      let m : Message V = record l.msg {
        sq_num = next_num l.msg.sq_num;
        time_allowed_to_live = tatl p.cfg (l.i + 1);
      } in
      rw e (record {
        same_cfg = h.same_cfg;
        range = h.range;
        latest = (st, refl);
        loop = (st, refl, same);
        chain = Chain-next m p h.range (inl (st, ap next_num sq)) p.sent h.latest h.chain;
        same = (same, h.same);
      })
  | inr e ↦ rw e (record {
    same_cfg = h.same_cfg;
    range = h.range;
    latest = h.latest;
    loop = tt;
    chain = h.chain;
    same = h.same;
  })
]

tick-IsStream :
    {V : Type 0} (marshal : Message V → List ℕ) (cfg : Config) (l : Option (Loop V))
    (p : Publisher V)
    → IsStream cfg l p
    → let (l', p') = tick marshal l p in IsStream cfg l' p'
tick-IsStream marshal cfg none p h = h
tick-IsStream marshal cfg (some l) p h = round-IsStream cfg l p h

publish-IsStream :
    {V : Type 0} (marshal : Message V → List ℕ) (cfg : Config) (values : List V) (now : ℕ)
    (l : Option (Loop V)) (p : Publisher V)
    → IsStream cfg l p
    → let (_, l', p') = publish marshal values now true p in IsStream cfg (or_keep marshal l' l) p'
unfolding publish publish_locked send message Retransmits Advertised
publish-IsStream {V = V} marshal cfg values now l p h =
    let m = message values (next_num p.st_num) true now p in
    let ours : Same cfg m = rw h.same_cfg (refl, refl) in
    let good = λ (r : Option Error × Option (Loop V) × Publisher V).
      IsStream cfg (or_keep marshal r.1 l) r.2 in
    let big = ltb max_payload (length (marshal (widest m))) in
    if-cases good p.closed _ _ (λ _. h)
      (λ _.
        if-cases good big _ _ (λ _. h)
          (λ _. record {
            same_cfg = h.same_cfg;
            range = ground arith;
            latest = (refl, refl);
            loop = (refl, refl, ours);
            chain = Chain-next m p h.range (inr (refl, refl)) p.sent h.latest h.chain;
            same = (ours, h.same);
          }))

run-IsStream :
    {V : Type 0} (marshal : Message V → List ℕ) (cfg : Config) (history : List (Event V))
    (p : Publisher V)
    → IsStream cfg none p
    → let (l, p') = run marshal history p in IsStream cfg l p'
unfolding run
run-IsStream marshal cfg [] p h = h
run-IsStream marshal cfg (publishes values now ∷ history) p h =
    let (l, p') = run marshal history p in
    publish-IsStream marshal cfg values now l p' (run-IsStream marshal cfg history p h)
run-IsStream marshal cfg (ticks ∷ history) p h =
    let (l, p') = run marshal history p in
    tick-IsStream marshal cfg l p' (run-IsStream marshal cfg history p h)

fresh-IsStream : {V : Type 0} (cfg : Config) → IsStream {V = V} cfg none (fresh cfg)
unfolding Retransmits Advertised Chain
fresh-IsStream cfg = record {
  same_cfg = refl;
  range = omega arith;
  latest = tt;
  loop = tt;
  chain = tt;
  same = tt;
}

new_publisher-IsStream :
    {V : Type 0} (cfg : Config) (p : Publisher V) → new_publisher cfg ≡ ok p → IsStream p.cfg none p
unfolding new_publisher
new_publisher-IsStream {V = V} cfg p =
    let good = λ (r : Result Error (Publisher V)). r ≡ ok p → IsStream p.cfg none p in
    let c = complete cfg in
    let start : Publisher V = fresh c in
    if-cases good (length cfg.go_cb_ref == 0) (err ref_required) _ (λ _ e. err-ok e)
      (λ _.
        if-cases good (not (all_positive c.retrans)) (err interval_not_positive) (ok start)
          (λ _ e. err-ok e)
          (λ _ e.
            subst (λ (q : Publisher V). IsStream q.cfg none q) (ok-injective {a = start} e)
              (fresh-IsStream c)))

-- A subscription without a history whose filter takes the control block, on a link that loses nothing:
-- it delivers everything that a new publisher sends, over any sequence of `Publish` and
-- retransmissions, in the order in which it was sent, and flags no message as a regression or a gap,
-- also where the counters of 32 bits roll over.
pub receive_all-run :
    {V : Type 0} (marshal : Message V → List ℕ) (cfg : Config) (p : Publisher V)
    (history : List (Event V)) (arrives : ℕ → ℕ) (sub : Subscription V)
    → new_publisher cfg ≡ ok p
    → sub.stopped ≡ false
    → sub.states ≡ []
    → sub.delivered ≡ []
    → IsFor sub.filter p.cfg
    → let sent = (run marshal history p).1.sent in
      let got = (receive_all arrives sub sent).delivered in
      (map (λ d. d.0) got ≡ sent) × All Clean got
receive_all-run marshal cfg p history arrives sub new running fresh none_yet for =
    let stream = run-IsStream marshal p.cfg history p (new_publisher-IsStream cfg p new) in
    let served =
      receive_all-Served p.cfg arrives sub (run marshal history p).1.sent running fresh none_yet for
        stream.same stream.chain in
    (served.all_delivered, served.clean)
