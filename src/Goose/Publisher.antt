-- ===== src/Goose/Publisher.antt =====
-- goose/publisher.go: the numbering and the retransmission of the states of a control block.
use go_iec.Base.{
  ℕ, ◌+◌, ◌-◌, ◌*◌, ◌/◌, ◌%◌, ◌^◌, min, max, Bool, true, false, not, ◌&&◌, Option, none, some, List,
  [], ◌∷◌, length, get_or, ltb, leb, ◌==◌, if◌then◌else◌, Result, ok, err,
}
use go_iec.Goose.{Message, next_num}

pub data Error : Type 0 where
  ref_required interval_not_positive closed_publisher frame_too_large write_failed : Error

abbrev ms : ℕ
ms = 1000000

-- `DefaultRetrans`
abbrev default_retrans : List ℕ
default_retrans =
    4 * ms ∷ 8 * ms ∷ 16 * ms ∷ 32 * ms ∷ 64 * ms ∷ 128 * ms ∷ 256 * ms ∷ 512 * ms ∷ 1000 * ms ∷ []

-- `PublisherConfig`, less the addresses of the frame. An interval is an int64 that is not negative.
pub record Config : Type 0 where
  pub app_id : ℕ
  pub go_cb_ref : List ℕ
  pub dat_set : List ℕ
  pub go_id : List ℕ
  pub conf_rev : ℕ
  pub retrans : List ℕ
  pub test : Bool
  pub nds_com : Bool
  pub time_quality : Option ℕ

-- A channel that stops a retransmission is its number: `stop` holds the one that is open, and every
-- other one that was made is closed. `sent` is what the interface has taken, the latest first.
pub record Publisher (V : Type 0) : Type 0 where
  pub cfg : Config
  pub st_num : ℕ
  pub sq_num : ℕ
  pub test : Bool
  pub nds_com : Bool
  pub t : Option ℕ  -- msg.T
  pub stop : Option ℕ
  pub channels : ℕ  -- how many have been made
  pub closed : Bool
  pub sent : List (Message V)

-- A goroutine in `retransmit`: its message, its channel, and the number of the round.
pub record Loop (V : Type 0) : Type 0 where
  pub msg : Message V
  pub stop : ℕ
  pub i : ℕ

-- Each interval is positive.
abbrev pub all_positive : List ℕ → Bool
all_positive [] = true
all_positive (d ∷ ds) = ltb 0 d && all_positive ds

abbrev or_else : List ℕ → List ℕ → List ℕ
or_else [] ys = ys
or_else (x ∷ xs) ys = x ∷ xs

-- The configuration with its defaults.
abbrev pub complete : Config → Config
complete cfg = record cfg {
  retrans = or_else cfg.retrans default_retrans;
  go_id = or_else cfg.go_id cfg.go_cb_ref;
}

abbrev pub fresh : {V : Type 0} → Config → Publisher V
fresh cfg = record {
  cfg = cfg;
  st_num = 0;
  sq_num = 0;
  test = cfg.test;
  nds_com = cfg.nds_com;
  t = none;
  stop = none;
  channels = 0;
  closed = false;
  sent = [];
}

-- `NewPublisher` on an interface.
unfoldable pub new_publisher : {V : Type 0} → Config → Result Error (Publisher V)
new_publisher cfg =
    if length cfg.go_cb_ref == 0
    then err ref_required
    else if not (all_positive (complete cfg).retrans)
    then err interval_not_positive
    else ok (fresh (complete cfg))

-- The message fits the frame when its numbers have grown as wide as they can.
abbrev pub max_payload : ℕ
max_payload = 1500

-- timeAllowedToLive of transmission `n`: `2 * d` is an int64.
unfoldable pub tatl : Config → ℕ → ℕ
tatl cfg n =
    let d = get_or cfg.retrans (min n (length cfg.retrans - 1)) 0 in
    if leb (2 ^ 63) (2 * d) then 1 else max (2 * d / ms) 1 % 2 ^ 32

-- The time stamp of a message: a refresh keeps that of the state that it repeats.
abbrev stamp : Bool → ℕ → Option ℕ → Option ℕ
stamp state_change now none = some now
stamp state_change now (some t) = if state_change then some now else some t

abbrev pub is_open : ℕ → Option ℕ → Bool
is_open k none = false
is_open k (some channel) = k == channel

-- `sends` says whether the interface takes the frame.
module _ {V : Type 0} where
  pub set_test : Bool → Publisher V → Publisher V
  set_test test p = record p { test = test }

  pub set_nds_com : Bool → Publisher V → Publisher V
  set_nds_com nds_com p = record p { nds_com = nds_com }

  unfoldable pub send : Bool → Message V → Publisher V → Option Error × Publisher V
  send sends msg p =
      if sends then (none, record p { sent = msg ∷ p.sent }) else (some write_failed, p)

  unfoldable pub message : List V → ℕ → Bool → ℕ → Publisher V → Message V
  message values st_num state_change now p = record {
    go_cb_ref = p.cfg.go_cb_ref;
    dat_set = p.cfg.dat_set;
    go_id = p.cfg.go_id;
    time_allowed_to_live = tatl p.cfg 0;
    t = stamp state_change now p.t;
    st_num = st_num;
    sq_num = 0;
    conf_rev = p.cfg.conf_rev;
    test = p.test;
    nds_com = p.nds_com;
    num_dat_set_entries = length values % 2 ^ 32;
    values = values;
    app_id = p.cfg.app_id;
    time_quality = p.cfg.time_quality;
  }

  unfoldable pub widest : Message V → Message V
  widest msg = record msg { sq_num = 2 ^ 32 - 1; time_allowed_to_live = 2 ^ 32 - 1 }

  pub state : Publisher V → ℕ × ℕ
  state p = (p.st_num, p.sq_num)

  unfoldable pub close : Publisher V → Publisher V
  close p = if p.closed then p else record p { closed = true; stop = none }

  -- One round of `retransmit`, once its timer has fired: the goroutine as it goes on, if it does.
  unfoldable pub round : Bool → Loop V → Publisher V → Option (Loop V) × Publisher V
  round sends l p =
      let msg : Message V = record l.msg {
        sq_num = next_num l.msg.sq_num;
        time_allowed_to_live = tatl p.cfg (l.i + 1);
      } in
      let (e, p') = send sends msg (record p { sq_num = msg.sq_num }) in
      if not (is_open l.stop p.stop)
      then (none, p)
      else if sends
      then (some (record l { msg = msg; i = l.i + 1 }), p')
      else (none, p')

-- `marshal` is `Message.Marshal`.
module _ {V : Type 0} (marshal : Message V → List ℕ) where
  -- The error, the goroutine that it starts, and the publisher.
  unfoldable pub publish_locked :
      List V → ℕ → Bool → ℕ → Bool → Publisher V → Option Error × Option (Loop V) × Publisher V
  publish_locked values st_num state_change now sends p =
      let msg = message values st_num state_change now p in
      let (e, p') = send sends msg (record p {
        t = msg.t;
        st_num = st_num;
        sq_num = 0;
        stop = some p.channels;
        channels = p.channels + 1;
      }) in
      if ltb max_payload (length (marshal (widest msg)))
      then (some frame_too_large, none, p)
      else (e, some (record { msg = msg; stop = p.channels; i = 0 }), p')

  unfoldable pub publish :
      List V → ℕ → Bool → Publisher V → Option Error × Option (Loop V) × Publisher V
  publish values now sends p =
      if p.closed
      then (some closed_publisher, none, p)
      else publish_locked values (next_num p.st_num) true now sends p

  unfoldable pub refresh :
      List V → ℕ → Bool → Publisher V → Option Error × Option (Loop V) × Publisher V
  refresh values now sends p =
      let st_num = if p.st_num == 0 then 1 else p.st_num in
      if p.closed
      then (some closed_publisher, none, p)
      else publish_locked values st_num false now sends p
