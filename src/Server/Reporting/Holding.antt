-- ===== src/Server/Reporting/Holding.antt =====
-- server/reporting.go: who holds a block.
use go_iec.Base.{
  ℕ, ◌+◌, ◌^◌, Bool, true, false, not, ◌&&◌, ◌||◌, Option, none, some, List, [], ltb, ◌==◌,
  if◌then◌else◌, equal_bytes,
}
use go_iec.Mms.{boolean, octet_string}
use go_iec.Server.SettingGroups.{int64}
use go_iec.Server.Reporting.{Environment, Conn, Rcb, set_attr}

abbrev pub is_some {ℓ} : {A : Type ℓ} → Option A → Bool
is_some none = false
is_some (some a) = true

-- `==` on pointers to connections.
abbrev pub same_conn : Option Conn → Conn → Bool
same_conn none c = false
same_conn (some b) c = b.identity == c.identity

abbrev ip_of : Option Conn → Option (List ℕ)
ip_of none = none
ip_of (some c) = c.conn_ip

-- `ipOctets`
abbrev ip_octets : Option (List ℕ) → List ℕ
ip_octets none = []
ip_octets (some ip) = ip

abbrev owner_ip : Option Conn → Option (List ℕ) → Option (List ℕ)
owner_ip none resv_ip = resv_ip
owner_ip (some c) resv_ip = c.conn_ip

-- `syncResvLocked`
unfoldable pub sync_resv : Rcb → Rcb
sync_resv rs =
    let held = is_some rs.owner || is_some rs.resv_ip in
    let ip = owner_ip rs.owner rs.resv_ip in
    record rs {
      attributes = record rs.attributes {
        resv = set_attr rs.attributes.resv (boolean held);
        owner_attr = set_attr rs.attributes.owner_attr (octet_string (ip_octets ip));
      };
    }

abbrev pub same_ip : Option (List ℕ) → List ℕ → Bool
same_ip none ip = false
same_ip (some other) ip = equal_bytes other ip

abbrev pub allowed_for : Option Conn → Option (List ℕ) → Conn → Bool
allowed_for (some owner) resv_ip conn = owner.identity == conn.identity
allowed_for none (some ip) conn = same_ip conn.conn_ip ip
allowed_for none none conn = true

-- `allowedLocked`
unfoldable pub allowed : Rcb → Conn → Bool
allowed rs conn = allowed_for rs.owner rs.resv_ip conn

-- `takeLocked`
unfoldable pub take_block : Conn → Rcb → Rcb
take_block conn rs = sync_resv (record rs {
  owner = some conn;
  resv_timer = none;
  resv_ip = if rs.resv_cfg then rs.resv_ip else none;
})

-- `resvTms`, an int64.
abbrev resv_tms_of : Environment → Rcb → ℕ
resv_tms_of env rs = int64 env.truncated rs.attributes.resv_tms

-- The address that a block is held for when its holder has gone.
abbrev held_for : Environment → Rcb → Option (List ℕ)
held_for env rs =
    let tms = resv_tms_of env rs in
    if rs.buffered && (ltb 0 tms && ltb tms (2 ^ 63)) then ip_of rs.owner else none

abbrev start_timer : Option (List ℕ) → ℕ → Option ℕ
start_timer none fresh = none
start_timer (some ip) fresh = some fresh

-- `releaseLocked`
unfoldable pub release : Environment → Rcb → Rcb
release env rs =
    let for_ip = held_for env rs in
    if rs.resv_cfg
    then sync_resv (record rs { owner = none })
    else sync_resv (record rs {
      owner = none;
      resv_ip = for_ip;
      resv_timer = start_timer for_ip rs.fresh;
      fresh = rs.fresh + 1;
    })

abbrev pub same_timer : Option ℕ → ℕ → Bool
same_timer none t = false
same_timer (some u) t = u == t

-- The callback of the timer of a reservation.
unfoldable pub on_resv_timer : ℕ → Rcb → Rcb
on_resv_timer t rs =
    if same_timer rs.resv_timer t && not (is_some rs.owner)
    then sync_resv (record rs { resv_timer = none; resv_ip = none })
    else rs
