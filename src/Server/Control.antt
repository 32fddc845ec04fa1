-- ===== src/Server/Control.antt =====
-- server/control.go: the controls of the data model. A string is its octets; a connection is a number,
-- and in a reservation, where nil is one too, the number after it.
pub mod Values
pub mod Termination
pub mod Commands
pub mod Writes
pub mod Safety
pub mod Selected
pub mod Counting
pub mod Ends
pub mod Bypass
mod Tests
use go_iec.Base.{
  ℕ, suc, ◌+◌, ◌-◌, ◌%◌, ◌^◌, Bool, true, false, ◌&&◌, Option, none, some, List, [], ◌∷◌, ◌++◌,
  length, drop, ltb, ◌==◌, if◌then◌else◌, equal_bytes,
}
use go_iec.Mms.{Value}
use go_iec.Mms.Time.{Time}

pub data Phase : Type 0 where
  oper sbow cancel sbo : Phase

unfoldable pub phase_name : Phase → List ℕ
phase_name oper = 79 ∷ 112 ∷ 101 ∷ 114 ∷ []
phase_name sbow = 83 ∷ 66 ∷ 79 ∷ 119 ∷ []
phase_name cancel = 67 ∷ 97 ∷ 110 ∷ 99 ∷ 101 ∷ 108 ∷ []
phase_name sbo = 83 ∷ 66 ∷ 79 ∷ []

abbrev phase_of : List ℕ → Option Phase
phase_of name =
    if equal_bytes name (phase_name oper)
    then some oper
    else if equal_bytes name (phase_name sbow)
    then some sbow
    else if equal_bytes name (phase_name cancel)
    then some cancel
    else if equal_bytes name (phase_name sbo)
    then some sbo
    else none

-- `strings.Split` at a character and `strings.Join` with it, as Go documents them.
abbrev push : ℕ → List (List ℕ) → List (List ℕ)
push c [] = (c ∷ []) ∷ []
push c (w ∷ words) = (c ∷ w) ∷ words

unfoldable pub split : ℕ → List ℕ → List (List ℕ)
split sep [] = [] ∷ []
split sep (c ∷ cs) = let words = split sep cs in if c == sep then [] ∷ words else push c words

abbrev pub behind : ℕ → List ℕ → List (List ℕ) → List ℕ
behind sep tail [] = []
behind sep tail (w ∷ words) = sep ∷ tail

unfoldable pub join : ℕ → List (List ℕ) → List ℕ
join sep [] = []
join sep (w ∷ words) = let tail = join sep words in w ++ behind sep tail words

-- The loop of `splitControl` from the last part down: the parts before the phase, and it.
abbrev before :
    List ℕ → Option (List (List ℕ) × Phase) → Option Phase → Option (List (List ℕ) × Phase)
before part (some (parts, phase)) here = some (part ∷ parts, phase)
before part none (some phase) = some ([], phase)
before part none none = none

unfoldable pub last_phase : List (List ℕ) → Option (List (List ℕ) × Phase)
last_phase [] = none
last_phase (part ∷ parts) = before part (last_phase parts) (phase_of part)

abbrev based : List ℕ → List ℕ → List ℕ → Option (List (List ℕ) × Phase) → Option (List ℕ × Phase)
based ln co object none = none
based ln co object (some (parts, phase)) = some (join 36 (ln ∷ co ∷ object ∷ parts), phase)

-- "CO" is 67 79, "$" is 36.
abbrev split_parts : List (List ℕ) → Option (List ℕ × Phase)
split_parts (ln ∷ co ∷ object ∷ parts) =
    let found = based ln co object (last_phase parts) in
    if equal_bytes co (67 ∷ 79 ∷ []) then found else none
split_parts _ = none

unfoldable pub split_control : List ℕ → Option (List ℕ × Phase)
split_control item = split_parts (split 36 item)

-- "/" is 47, "." is 46.
abbrev path : List (List ℕ) → List (List ℕ)
path [] = []
path (ln ∷ parts) = ln ∷ drop 1 parts

unfoldable pub control_ref : List ℕ → List ℕ → List ℕ
control_ref domain base = domain ++ (47 ∷ join 46 (path (split 36 base)))

-- `ObjectReference.Child`
abbrev pub child : List ℕ → List ℕ → List ℕ
child ref name = ref ++ (46 ∷ name)

-- `HasSuffix`
abbrev pub has_suffix : List ℕ → List ℕ → Bool
has_suffix item suffix = equal_bytes suffix (drop (length item - length suffix) item)

-- What a handler is given.
pub record ControlCtx : Type 0 where
  pub ref : List ℕ
  pub value : Value
  pub origin : ℕ  -- uint8
  pub or_ident : List ℕ
  pub ctl_num : ℕ  -- uint8
  pub test : Bool
  pub interlock : Bool
  pub synchro : Bool
  pub select : Bool
  pub t : Time
  pub t_quality : ℕ
  pub conn : Option ℕ
  pub peer : List ℕ

-- The connection, as a reservation names it.
abbrev pub holder : Option ℕ → ℕ
holder none = 0
holder (some conn) = suc conn
