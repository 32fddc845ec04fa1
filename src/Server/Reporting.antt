-- ===== src/Server/Reporting.antt =====
-- server/reporting.go and server/rcb.go: report control blocks. A block is an Rcb, with the values of
-- the attributes of its data object; the server's counter of entries is handed from block to block.
-- A timer and a channel are identities, a new one each time. An address is the octets of `ipOctets`.
pub mod Pdus
pub mod Sending
pub mod Holding
pub mod Writes
pub mod Blocks
use go_iec.Base.{
  ℕ, zero, suc, ◌+◌, ◌-◌, ◌*◌, ◌/◌, ◌%◌, ◌^◌, Bool, true, false, not, ◌&&◌, ◌||◌, Option, none,
  some, List, [], ◌∷◌, ◌++◌, length, ltb, leb, ◌==◌, if◌then◌else◌, equal_bytes, replicate, bit_and,
  bit_or,
}
use go_iec.Asn1.Element.{Element}
use go_iec.Asn1.Primitives.Floats.{Floats}
use go_iec.Mms.{Value, absent, octet_string, visible_string, mms_string, generalized_time}

-- A member of a data set: the domain and the item.
pub record DsMember : Type 0 where
  pub domain : List ℕ
  pub item : List ℕ

-- What the blocks see of the rest: Go's float conversions, `String` of a value that is no string, the
-- data sets of the data model (`resolveDataSet`) and its values (`itemValue`, absent for nil).
pub record Environment : Type 0 where
  pub floats : Floats
  pub truncated : ℕ → ℕ
  pub string_of : Value → List ℕ
  pub resolve_data_set : List ℕ → Option (List DsMember)
  pub item_value : DsMember → Value

-- A connection: an identity, `connIP`, and `MaxPDU`, where 0 stands for no limit.
pub record Conn : Type 0 where
  pub identity : ℕ
  pub conn_ip : Option (List ℕ)
  pub max_pdu : ℕ

-- A report: `members`, `values` and `reasons` are the three slices of the source, side by side.
pub record Part : Type 0 where
  pub index : ℕ
  pub value : Value
  pub reason : ℕ  -- uint8

pub record ReportEntry : Type 0 where
  pub id : List ℕ
  pub time : Value  -- what NewBinaryTime makes of it
  pub parts : List Part

-- The attributes of the data object, absent where the block has none of that name.
pub record Attributes : Type 0 where
  pub rpt_id : Value
  pub rpt_ena : Value
  pub resv : Value
  pub dat_set : Value
  pub conf_rev : Value
  pub opt_flds : Value
  pub buf_tm : Value
  pub sq_num_attr : Value
  pub trg_ops_attr : Value
  pub intg_pd : Value
  pub gi : Value
  pub purge_buf : Value
  pub owner_attr : Value
  pub entry_id : Value
  pub timeof_entry : Value
  pub resv_tms : Value

-- A report that `transmitLocked` takes up, with the PDUs that it builds and how many of them are sent.
pub record Report : Type 0 where
  pub to : Conn
  pub entry : ReportEntry
  pub seq : ℕ
  pub overflow : Bool
  pub pdus : List Element
  pub delivered : ℕ

-- `rcbState`. `sends` are the outcomes of the calls of SendUnconfirmed to come (true when the list is
-- empty), `sent` the reports up to now, the latest first; `fresh` numbers timers and channels.
pub record Rcb : Type 0 where
  pub domain : List ℕ
  pub item : List ℕ
  pub buffered : Bool
  pub attributes : Attributes
  pub max_buffer : ℕ
  pub enabled : Bool
  pub conn : Option Conn
  pub owner : Option Conn
  pub resv_ip : Option (List ℕ)
  pub resv_cfg : Bool
  pub resv_timer : Option ℕ
  pub sq_num : ℕ  -- uint32
  pub intg_stop : Option ℕ
  pub pending : Option (ℕ × List Part)
  pub buffer : List ReportEntry
  pub next : ℕ
  pub resync_id : Option (List ℕ)
  pub buf_overflow : Bool
  pub entry_counter : ℕ  -- uint64
  pub seed : ℕ  -- uint64
  pub fresh : ℕ
  pub sends : List Bool
  pub sent : List Report

-- `Text`
unfoldable pub text : (Value → List ℕ) → Value → List ℕ
text string_of absent = []
text string_of (visible_string b) = b
text string_of (mms_string b) = b
text string_of (generalized_time b) = b
text string_of v = string_of v

-- `setAttr`, on an attribute that may be missing.
abbrev pub set_attr : Value → Value → Value
set_attr absent v = absent
set_attr _ v = v

-- `makeEntryID`
unfoldable pub make_entry_id : ℕ → List ℕ
make_entry_id n =
    n / 2 ^ 56 % 256
    ∷ n / 2 ^ 48 % 256
    ∷ n / 2 ^ 40 % 256
    ∷ n / 2 ^ 32 % 256
    ∷ n / 2 ^ 24 % 256
    ∷ n / 2 ^ 16 % 256
    ∷ n / 2 ^ 8 % 256
    ∷ n % 256
    ∷ []

-- The EntryID that `nextEntryID` makes of the counter.
unfoldable pub entry_id_of : ℕ → ℕ → List ℕ
entry_id_of seed counter =
    make_entry_id (bit_or (bit_and seed 0xFFFFFFFF * 2 ^ 32 % 2 ^ 64) (counter % 2 ^ 32))

unfoldable pub is_zero_entry_id : List ℕ → Bool
is_zero_entry_id id = length id == 8 && equal_bytes id (replicate 8 0)

-- `bufferIndex`, none for -1.
unfoldable pub buffer_index : List ReportEntry → List ℕ → Option ℕ
buffer_index [] id = none
buffer_index (e ∷ buffer) id =
    let rest = buffer_index buffer id in
    if equal_bytes e.id id then some 0 else elim rest [ some i ↦ some (suc i) | none ↦ none ]

-- One round of the loop of `merge`: a member goes before the first one of a larger index.
unfoldable pub insert_part : Part → List Part → List Part
insert_part e [] = e ∷ []
insert_part e (p ∷ parts) =
    let rest = insert_part e parts in if ltb e.index p.index then e ∷ p ∷ parts else p ∷ rest

-- `merge`
unfoldable pub merge : List Part → List Part → List Part
merge parts [] = parts
merge parts (e ∷ es) = merge (insert_part e parts) es

unfoldable pub contains : ℕ → List Part → Bool
contains x [] = false
contains x (p ∷ parts) = x == p.index || contains x parts

unfoldable pub overlaps : List Part → List Part → Bool
overlaps [] b = false
overlaps (x ∷ a) b = contains x.index b || overlaps a b
