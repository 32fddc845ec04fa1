-- ===== src/Rsession/Keys.antt =====
-- rsession/keys.go: keys and the store of a session. The store is a map from identifiers, kept as
-- lists of one number; copies of the material and the lock are not told apart.
pub mod Store
use go_iec.Base.{
  ℕ, Bool, true, false, not, ◌&&◌, ◌||◌, Option, none, some, List, [], ◌∷◌, length, ltb, ◌==◌,
  if◌then◌else◌, Result, ok, err, ◌>>=◌,
}
use go_iec.Base.Maps.{lookup, insert, delete}

pub data KeyError : Type 0 where
  key_id algorithm unsupported key_length combination no_key : KeyError

-- `SecNone`
abbrev pub sec_none : ℕ
sec_none = 0

-- `SigNone`
abbrev pub sig_none : ℕ
sig_none = 0

-- `keyLen` of an encryption algorithm.
abbrev key_len : ℕ → ℕ
key_len a = if a == 1 then 16 else if a == 2 then 32 else 0

-- `macLen` of an authentication algorithm.
abbrev pub mac_len : ℕ → ℕ
mac_len a =
    if a == 1 || a == 6
    then 10
    else if a == 2 || a == 7
    then 16
    else if a == 3 || a == 8
    then 32
    else 0

abbrev min_hmac_key : ℕ
min_hmac_key = 16

pub record Key : Type 0 where
  pub id : ℕ  -- uint32
  pub material : List ℕ
  pub sec : ℕ  -- uint8
  pub sig : ℕ  -- uint8
  pub time_of_current_key : ℕ  -- uint32
  pub time_to_next_key : ℕ  -- the bits of an int16

unfoldable pub validate : Key → Result KeyError (Unit {0})
validate k =
    if k.id == 0
    then err key_id
    else if k.sec == sec_none && k.sig == sig_none
    then err algorithm
    else if not (k.sec == sec_none) && not (k.sig == sig_none)
    then err combination
    else if not (k.sec == sec_none)
    then (if key_len k.sec == 0
        then err unsupported
        else if not (length k.material == key_len k.sec)
        then err key_length
        else ok tt)
    else if mac_len k.sig == 0
    then err unsupported
    else if ltb (length k.material) min_hmac_key
    then err key_length
    else ok tt

pub record KeyStore : Type 0 where
  pub keys : List (List ℕ × Key)
  pub active : ℕ

abbrev pub no_keys : KeyStore
no_keys = record { keys = []; active = 0 }

unfoldable pub add : Key → KeyStore → Result KeyError KeyStore
add k s = do _ ← validate k; ok (record s { keys = insert (k.id ∷ []) k s.keys })

unfoldable pub remove : ℕ → KeyStore → KeyStore
remove id s = record {
  keys = delete (id ∷ []) s.keys;
  active = if s.active == id then 0 else s.active;
}

unfoldable pub set_active : ℕ → KeyStore → Result KeyError KeyStore
set_active id s = elim (lookup (id ∷ []) s.keys) [
  | some k ↦ ok (record s { active = id })
  | none ↦ err no_key
]

-- `lookup`, also of a store that is nil.
unfoldable pub find : Option KeyStore → ℕ → Option Key
find none id = none
find (some s) id = lookup (id ∷ []) s.keys

unfoldable pub active_key : Option KeyStore → Option Key
active_key none = none
active_key (some s) = find (some s) s.active

-- The loop of `NewKeyStore` behind the first key.
unfoldable add_all : List Key → KeyStore → Result KeyError KeyStore
add_all [] s = ok s
add_all (k ∷ ks) s = do s' ← add k s; add_all ks s'

unfoldable new_key_store : List Key → Result KeyError KeyStore
new_key_store [] = ok no_keys
new_key_store (k ∷ ks) = do s ← add k no_keys; add_all ks (record s { active = k.id })
