-- ===== src/Goose.antt =====
-- goose/: the message (message.go), the publisher and the subscriber. `V` stands for the values of a
-- data set; a time and a duration are nanoseconds, and the zero time is `none`.
pub mod Wire
pub mod Publisher
pub mod Subscriber
pub mod Stream
pub mod Sending
pub mod Supervision
mod Tests
use go_iec.Base.{ℕ, ◌+◌, ◌%◌, ◌^◌, Bool, Option, List, ◌==◌, if◌then◌else◌}

pub record Message (V : Type 0) : Type 0 where
  pub go_cb_ref : List ℕ
  pub dat_set : List ℕ
  pub go_id : List ℕ
  pub time_allowed_to_live : ℕ  -- uint32, milliseconds
  pub t : Option ℕ
  pub st_num : ℕ  -- uint32
  pub sq_num : ℕ  -- uint32
  pub conf_rev : ℕ  -- uint32
  pub test : Bool
  pub nds_com : Bool
  pub num_dat_set_entries : ℕ  -- uint32
  pub values : List V
  pub app_id : ℕ  -- uint16
  pub time_quality : Option ℕ

-- A counter of 32 bits that rolls over to 1: `x + 1`, and 1 in place of 0.
abbrev pub next_num : ℕ → ℕ
next_num x = let n = (x + 1) % 2 ^ 32 in if n == 0 then 1 else n
