-- ===== src/Server/Reporting/Pdus.antt =====
-- server/reporting.go: the report as InformationReports, in one or in segments.
pub mod Segments
use go_iec.Base.{
  ℕ, zero, suc, ◌+◌, ◌%◌, ◌^◌, Bool, true, false, not, ◌&&◌, ◌||◌, Option, none, some, List, [],
  ◌∷◌, ◌++◌, map, length, ltb, leb, ◌==◌, if◌then◌else◌, bit_and, bit_or, get_or, pos,
}
use go_iec.Asn1.{context_primitive, context_constructed}
use go_iec.Asn1.Element.{Element, prim, cons, size}
use go_iec.Mms.{Value, absent, unsigned, boolean, visible_string, octet_string}
use go_iec.Mms.Codec.{data_element}
use go_iec.Mms.BitStrings.{set_bit}
use go_iec.Model.Flags.{has, zero_bits, opt_flds_value, opt_flds_from_value, reason_value}
use go_iec.Server.SettingGroups.{int64}
use go_iec.Server.Reporting.{DsMember, Environment, Conn, Part, ReportEntry, Attributes, Rcb, text}

-- `attrText` of DatSet, and the members of the data set, none if there is no such set.
abbrev pub data_set_of : Environment → Rcb → List ℕ
data_set_of env rs = text env.string_of rs.attributes.dat_set

abbrev members_or_none : Option (List DsMember) → List DsMember
members_or_none none = []
members_or_none (some ms) = ms

abbrev pub members_of : Environment → Rcb → List DsMember
members_of env rs = members_or_none (env.resolve_data_set (data_set_of env rs))

-- `rptIDOf`; "/" is 47.
abbrev or_reference : List ℕ → Value → List ℕ → List ℕ → Value
or_reference [] attr domain item = visible_string (domain ++ (47 ∷ item))
or_reference (x ∷ xs) attr domain item = attr

unfoldable pub rpt_id_of : Environment → Rcb → Value
rpt_id_of env rs =
    or_reference (text env.string_of rs.attributes.rpt_id) rs.attributes.rpt_id rs.domain rs.item

-- The bits 1 to 8, and those of a report that is not buffered, without 6 and 7.
unfoldable pub effective_opt_flds : ℕ → Bool → ℕ
effective_opt_flds opt buffered =
    if buffered then bit_and opt 0x1fe else bit_and (bit_and opt 0x1fe) 0x13e

abbrev when : Bool → Value → List Value
when b v = if b then v ∷ [] else []

unfoldable pub include : List Part → Value → Value
include [] v = v
include (p ∷ parts) v = include parts (set_bit v (pos p.index) true)

abbrev no_member : DsMember
no_member = record { domain = []; item = [] }

-- "LDName/LNName$FC$DataName" for the members in range.
unfoldable pub references : List DsMember → List Part → List Value
references members [] = []
references members (p ∷ parts) =
    let m = get_or members p.index no_member in
    when (ltb p.index (length members)) (visible_string (m.domain ++ (47 ∷ m.item)))
    ++ references members parts

-- What a report carries of the block and the entry, before the segment.
abbrev heading : Environment → Rcb → ReportEntry → ℕ → ℕ → Bool → List Value
heading env rs e opt seq overflow =
    (rpt_id_of env rs ∷ opt_flds_value opt ∷ [])
    ++ (when (has opt 1) (unsigned (seq % (if rs.buffered then 2 ^ 16 else 2 ^ 8)))
        ++ (when (has opt 2) e.time
            ++ (when (has opt 4) (visible_string (data_set_of env rs))
                ++ (when (has opt 6) (boolean overflow)
                    ++ (when (has opt 7) (octet_string e.id)
                        ++ when (has opt 8)
                            (unsigned (int64 env.truncated rs.attributes.conf_rev % 2 ^ 32)))))))

-- The members of the segment.
abbrev pub content : List DsMember → ℕ → List Part → List Value
content members opt parts =
    (include parts (zero_bits (length members)) ∷ [])
    ++ ((if has opt 5 then references members parts else [])
        ++ (map (λ p. p.value) parts
            ++ (if has opt 3 then map (λ p. reason_value p.reason) parts else [])))

-- The number of a segment and whether there are more, which a report in one piece does not carry.
pub data Segment : Type 0 where
  whole : Segment
  part : ℕ → Bool → Segment

abbrev numbering : Segment → List Value
numbering whole = []
numbering (part sub_seq more) = unsigned (sub_seq % 2 ^ 16) ∷ boolean more ∷ []

abbrev wire_flags : Segment → ℕ → ℕ
wire_flags whole opt = opt
wire_flags (part sub_seq more) opt = bit_or opt (2 ^ 9)

-- The values of `reportElement`, of the members `parts` of the entry.
unfoldable pub report_values :
    Environment
    → Rcb
    → ReportEntry
    → List DsMember
    → ℕ
    → ℕ
    → Bool
    → List Part
    → Segment
    → List Value
report_values env rs e members opt seq overflow parts segment =
    let flags = wire_flags segment opt in
    heading env rs e flags seq overflow ++ (numbering segment ++ content members flags parts)

-- "RPT" is 82 80 84.
unfoldable pub report_element : Environment → List Value → Element
report_element env values = cons (context_constructed 0) (
    some (cons (context_constructed 1) (some (prim (context_primitive 0) (82 ∷ 80 ∷ 84 ∷ [])) ∷ []))
    ∷ some (cons (context_constructed 0) (map (data_element env.floats) values))
    ∷ [])

unfoldable pub fits_pdu : ℕ → Element → Bool
fits_pdu max_pdu el = max_pdu == 0 || leb (size el + 4) max_pdu

-- The inner loop: a segment takes the next member while `fits` admits it.
unfoldable pub grow : (List Part → Bool) → List Part → List Part → List Part × List Part
grow fits taken [] = (taken, [])
grow fits taken (p ∷ rest) =
    let longer = grow fits (taken ++ (p ∷ [])) rest in
    if fits (taken ++ (p ∷ [])) then longer else (taken, p ∷ rest)

abbrev pub is_empty : List Part → Bool
is_empty [] = true
is_empty (p ∷ parts) = false

-- The outer loop: the segments from the number `sub_seq` on. Each takes a member at least.
unfoldable pub segments : (ℕ → List Part → Bool) → ℕ → ℕ → List Part → List (List Part × Segment)
segments fits zero sub_seq parts = []
segments fits (suc fuel) sub_seq [] = []
segments fits (suc fuel) sub_seq (p ∷ parts) =
    let (taken, rest) = grow (fits sub_seq) (p ∷ []) parts in
    (taken, part sub_seq (not (is_empty rest))) ∷ segments fits fuel (sub_seq + 1) rest

-- The pieces that `reportPDUs` sends the entry in.
unfoldable pub pieces : (List Part → Segment → Bool) → List Part → List (List Part × Segment)
pieces fits parts =
    if fits parts whole
    then (parts, whole) ∷ []
    else segments (λ sub_seq taken. fits taken (part sub_seq true)) (length parts) 0 parts

abbrev build : Environment → Rcb → ReportEntry → ℕ → Bool → List Part → Segment → Element
build env rs e seq overflow parts segment =
    let opt = effective_opt_flds (opt_flds_from_value rs.attributes.opt_flds) rs.buffered in
    report_element env (report_values env rs e (members_of env rs) opt seq overflow parts segment)

-- `reportPDUs`
unfoldable pub report_pdus : Environment → Rcb → ReportEntry → ℕ → Bool → ℕ → List Element
report_pdus env rs e seq overflow max_pdu =
    let fits : List Part → Segment → Bool =
      λ parts segment. fits_pdu max_pdu (build env rs e seq overflow parts segment) in
    map (λ piece. build env rs e seq overflow piece.0 piece.1) (pieces fits e.parts)
