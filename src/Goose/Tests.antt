-- ===== src/Goose/Tests.antt =====
-- goose/: the theorems at a control block with two entries in its data set.
use go_iec.Base.{
  ℕ, ◌*◌, ◌≡◌, refl, true, false, none, some, List, [], ◌∷◌, equal_bytes, map, All, inl, inr, ok,
  arith,
}
use go_iec.Base.Maps.{lookup}
use go_iec.Goose.{Message}
use go_iec.Goose.Publisher.{
  Config, Publisher, Loop, complete, fresh, new_publisher, publish, refresh, round, message, widest,
}
use go_iec.Goose.Subscriber.{SeqState, Subscription, check, matches, on_message, on_timer}
use go_iec.Goose.Stream.{Clean, receive_all}
use go_iec.Goose.Sending.{Event, publishes, ticks, run, receive_all-run}
use go_iec.Goose.Supervision.{publish-round, on_message-on_timer, refresh-check}

-- The octets of a message: here its values alone.
abbrev octets : Message ℕ → List ℕ
octets m = m.values

abbrev config : Config
config = record {
  app_id = 1;
  go_cb_ref = 0x47 ∷ [];
  dat_set = 0x44 ∷ [];
  go_id = [];
  conf_rev = 1;
  retrans = [];
  test = false;
  nds_com = false;
  time_quality = none;
}

abbrev started : Publisher ℕ
started = fresh (complete config)

abbrev values : List ℕ
values = 1 ∷ 2 ∷ []

abbrev history : List (Event ℕ)
history = publishes values 9 ∷ ticks ∷ ticks ∷ publishes values 5 ∷ []

abbrev subscription : Subscription ℕ
subscription = record {
  filter = record { app_id = 1; go_cb_ref = [] };
  supervised = true;
  stopped = false;
  states = [];
  delivered = [];
  expirations = [];
}

starts : new_publisher config ≡ ok started
unfolding new_publisher
starts = refl

receive_all-run_example :
    let sent = (run octets history started).1.sent in
    let got = (receive_all (λ n. n * 10) subscription sent).delivered in
    (map (λ d. d.0) got ≡ sent) × All Clean got
receive_all-run_example =
    receive_all-run octets config started history (λ n. n * 10) subscription starts refl refl refl
      (record { app = inr refl; ref = inl refl })

-- A goroutine of the state before.
abbrev advertising : Publisher ℕ
advertising = record started { st_num = 3; sq_num = 2; stop = some 4; channels = 5; t = some 6 }

abbrev heard : Message ℕ
heard = record {
  go_cb_ref = 0x47 ∷ [];
  dat_set = 0x44 ∷ [];
  go_id = 0x47 ∷ [];
  time_allowed_to_live = 8;
  t = some 6;
  st_num = 3;
  sq_num = 2;
  conf_rev = 1;
  test = false;
  nds_com = false;
  num_dat_set_entries = 2;
  values = values;
  app_id = 1;
  time_quality = none;
}

abbrev goroutine : Loop ℕ
goroutine = record { msg = heard; stop = 4; i = 2 }

publish-round_example :
    round true goroutine (publish octets values 9 true advertising).2
    ≡ (none, (publish octets values 9 true advertising).2)
publish-round_example =
    publish-round octets values 9 true true goroutine advertising refl
      (unfold message widest in omega arith) (omega arith)

abbrev seen : SeqState
seen = record { st_num = 3; sq_num = 1; tatl = 8000000; arrival = 7; timer = some 8000007; gen = 1 }

abbrev listening : Subscription ℕ
listening = record subscription { states = (0x47 ∷ [], seen) ∷ [] }

on_message-on_timer_example :
    on_timer (0x47 ∷ []) 1 (on_message heard 9 listening) ≡ on_message heard 9 listening
on_message-on_timer_example =
    on_message-on_timer heard 9 listening seen refl refl (unfold matches in refl) (omega arith)
      (unfold lookup equal_bytes in refl) (omega arith)

refresh-check_example :
    (m : Message ℕ) × ((refresh octets values 9 true advertising).2.sent ≡ m ∷ [])
    × ((check seen m 12).sq_num_gap ≡ true)
refresh-check_example =
    refresh-check octets values 9 12 advertising seen refl (λ e. omega arith)
      (unfold message widest in omega arith) refl
