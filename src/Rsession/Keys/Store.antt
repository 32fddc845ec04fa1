-- ===== src/Rsession/Keys/Store.antt =====
-- What holds of a key store whatever was done with it.
use go_iec.Base.{
  ℕ, ◌≡◌, refl, sym, ap, ◌⊎◌, inl, inr, false, Bool-cases, Option-cases, Result-cases, Option, none,
  some, List, [], ◌∷◌, All, equal_bytes, ◌==◌, if-cases, Result, ok, err, arith,
}
use go_iec.Base.Maps.{
  lookup, insert, lookup-insert, lookup-delete, All-insert, All-delete, All-lookup,
}
use go_iec.Rsession.Keys.{
  Key, KeyError, KeyStore, validate, no_keys, add, remove, set_active, find, active_key,
}

pub data Action : Type 0 where
  adds : Key → Action
  removes activates : ℕ → Action

-- A call that fails leaves the store as it was.
abbrev unless_err : Result KeyError KeyStore → KeyStore → KeyStore
unless_err (ok s') s = s'
unless_err (err e) s = s

unfoldable pub act : Action → KeyStore → KeyStore
act (adds k) s = unless_err (add k s) s
act (removes id) s = remove id s
act (activates id) s = unless_err (set_active id s) s

-- The calls, the latest first.
unfoldable pub run : List Action → KeyStore
run [] = no_keys
run (a ∷ later) = act a (run later)

IsEntry : List ℕ × Key → Type 0
IsEntry (j, k) = (j ≡ k.id ∷ []) × (validate k ≡ ok tt)

HasActive : KeyStore → Type 0
HasActive s = (s.active ≡ 0) ⊎ ((k : Key) × (lookup (s.active ∷ []) s.keys ≡ some k))

record IsStore (s : KeyStore) : Type 0 where
  entries : All IsEntry s.keys
  active : HasActive s

lookup-insert-some :
    (k j : List ℕ) (v w : Key) (m : List (List ℕ × Key))
    → lookup j m ≡ some w
    → (u : Key) × (lookup j (insert k v m) ≡ some u)
lookup-insert-some k j v w m found = rw (lookup-insert k j v m) (
    if-cases (λ (o : Option Key). (u : Key) × (o ≡ some u)) (equal_bytes k j) _ _ (λ e. (v, refl))
      (λ e. (w, found)))

add-IsStore : (k : Key) (s : KeyStore) → IsStore s → IsStore (unless_err (add k s) s)
unfolding add IsEntry HasActive
add-IsStore k s is = elim (Result-cases (validate k)) [
  | inr (e, bad) ↦ rw bad is
  | inl (_, good) ↦ rw good (record {
    entries = All-insert IsEntry (k.id ∷ []) k s.keys (refl, good) is.entries;
    active = elim is.active [
      | inl none_active ↦ inl none_active
      | inr (j, found) ↦ inr (lookup-insert-some (k.id ∷ []) (s.active ∷ []) k j s.keys found)
    ];
  })
]

remove-IsStore : (id : ℕ) (s : KeyStore) → IsStore s → IsStore (remove id s)
unfolding remove HasActive equal_bytes
remove-IsStore id s is = elim (Bool-cases (s.active == id)) [
  | inl e ↦
      rw e (record { entries = All-delete IsEntry (id ∷ []) s.keys is.entries; active = inl refl })
  | inr e ↦ rw e (record {
    entries = All-delete IsEntry (id ∷ []) s.keys is.entries;
    active = elim is.active [
      | inl none_active ↦ inl none_active
      | inr (j, found) ↦
          let apart : (id == s.active) ≡ false = ground (arith, e) in
          inr (j, rw (lookup-delete (id ∷ []) (s.active ∷ []) s.keys, apart) found)
    ];
  })
]

set_active-IsStore : (id : ℕ) (s : KeyStore) → IsStore s → IsStore (unless_err (set_active id s) s)
unfolding set_active HasActive
set_active-IsStore id s is = elim (Option-cases (lookup (id ∷ []) s.keys)) [
  | inl e ↦ rw (unless_err, e) is
  | inr (k, e) ↦ rw (unless_err, e) (record { entries = is.entries; active = inr (k, e) })
]

run-IsStore : (actions : List Action) → IsStore (run actions)
unfolding run act HasActive
run-IsStore [] = record { entries = tt; active = inl refl }
run-IsStore (adds k ∷ later) = add-IsStore k (run later) (run-IsStore later)
run-IsStore (removes id ∷ later) = remove-IsStore id (run later) (run-IsStore later)
run-IsStore (activates id ∷ later) = set_active-IsStore id (run later) (run-IsStore later)

abbrev head : List ℕ → ℕ
head [] = 0
head (x ∷ xs) = x

find-IsStore :
    (s : KeyStore) (id : ℕ) (k : Key)
    → IsStore s
    → find (some s) id ≡ some k
    → (k.id ≡ id) × (validate k ≡ ok tt)
unfolding find IsEntry
find-IsStore s id k is found =
    let (named, good) = All-lookup IsEntry (id ∷ []) k s.keys is.entries found in
    (ap head (sym named), good)

none_active : (s : KeyStore) → IsStore s → find (some s) s.active ≡ none → s.active ≡ 0
unfolding find HasActive
none_active s is missing = elim is.active [
  | inl e ↦ e
  | inr (k, found) ↦ absurd (ground (arith, missing, found))
]

active_key-IsStore :
    (s : KeyStore)
    → IsStore s
    → ((s.active ≡ 0) × (active_key (some s) ≡ none)) ⊎ ((k : Key) × (active_key (some s) ≡ some k))
unfolding active_key
active_key-IsStore s is = elim (Option-cases (find (some s) s.active)) [
  | inr found ↦ inr found
  | inl missing ↦ inl (none_active s is missing, missing)
]

-- Whatever calls of `Add`, `Remove` and `SetActive` a store has seen, failed ones included: every key
-- that `lookup` finds is valid and bears the identifier it was asked for; and a sender has a key,
-- unless no identifier is active.
pub find-run :
    (actions : List Action)
    → ((id : ℕ) (k : Key)
        → find (some (run actions)) id ≡ some k
        → (k.id ≡ id) × (validate k ≡ ok tt))
      × ((((run actions).active ≡ 0) × (active_key (some (run actions)) ≡ none))
          ⊎ ((k : Key) × (active_key (some (run actions)) ≡ some k)))
find-run actions = (
  λ id k found. find-IsStore (run actions) id k (run-IsStore actions) found,
  active_key-IsStore (run actions) (run-IsStore actions),
)
