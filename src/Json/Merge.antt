-- ===== src/Json/Merge.antt =====
-- merge_payload_preserving_richer of gamecollect/provider.py, key by key.
use gamealerts_collector.Prelude.{
  String, ◌≡◌, refl, true, false, Option, none, some, [], ◌∷◌, arith, ◌==◌, ==_iff, string_eq,
  if◌then◌else◌, inl, inr, Bool-cases,
}
use gamealerts_collector.Dict.{IsDict, get, contains, get-insert, insert-IsDict}
use gamealerts_collector.Json.{
  Value, Payload, is_empty_payload_value, merge_item, merge_payload_preserving_richer,
}

-- What becomes of one key: an incoming value wins unless it is empty over a value that is there.
abbrev pub richer : Option Value → Option Value → Option Value
richer b none = b
richer none (some v) = some v
richer (some b) (some v) = if is_empty_payload_value v then some b else some v

get-merge_item :
    (k key : String) (v : Value) (base : Payload)
    → get k (merge_item base key v)
      ≡ (if key == k then richer (get k base) (some v) else get k base)
unfolding merge_item
get-merge_item k key v base = ground (arith, get-insert key k v base, ==_iff key k)

richer-some_step :
    (k key : String) (v : Value) (b rest : Option Value)
    → ((key == k) ≡ true → rest ≡ none)
    → richer (if key == k then richer b (some v) else b) rest
      ≡ richer b (if key == k then some v else rest)
richer-some_step k key v b rest h = elim (Bool-cases (key == k)) [
  | inl e ↦ rw (e, h e)
  | inr e ↦ rw e
]

get-of_not_contains :
    (k key : String) (d : Payload) → contains key d ≡ false → (key == k) ≡ true → get k d ≡ none
get-of_not_contains k key d h e = ground (arith, ==_iff key k)

-- If the incoming payload has no repeated key, the value of the merged payload at any key
-- is the incoming value, unless that is missing, or is empty while the base has a value
-- there, in which case it is the base's.
pub get-merge_payload_preserving_richer :
    (k : String) (base incoming : Payload)
    → IsDict incoming
    → get k (merge_payload_preserving_richer base incoming) ≡ richer (get k base) (get k incoming)
unfolding merge_payload_preserving_richer
get-merge_payload_preserving_richer k base [] h = refl
get-merge_payload_preserving_richer k base ((key, v) ∷ d) h =
    rw (get-merge_payload_preserving_richer k (merge_item base key v) d h.1, get-merge_item)
      (richer-some_step k key v (get k base) (get k d) (get-of_not_contains k key d h.0))

merge_item-IsDict :
    (base : Payload) (k : String) (v : Value) → IsDict base → IsDict (merge_item base k v)
unfolding merge_item
merge_item-IsDict base k v h = ground (arith, insert-IsDict k v base h)

pub merge-IsDict :
    (base incoming : Payload) → IsDict base → IsDict (merge_payload_preserving_richer base incoming)
unfolding merge_payload_preserving_richer
merge-IsDict base [] h = h
merge-IsDict base ((k, v) ∷ d) h =
    merge-IsDict (merge_item base k v) d (merge_item-IsDict base k v h)

richer_assoc : (a b c : Option Value) → richer (richer a b) c ≡ richer a (richer b c)
richer_assoc a b c = ground arith

-- If the two later payloads have no repeated key, merging three payloads gives the same
-- value at every key, however they are grouped.
pub merge_payload_preserving_richer_assoc :
    (k : String) (a b c : Payload)
    → IsDict b
    → IsDict c
    → get k (merge_payload_preserving_richer (merge_payload_preserving_richer a b) c)
      ≡ get k (merge_payload_preserving_richer a (merge_payload_preserving_richer b c))
merge_payload_preserving_richer_assoc k a b c hb hc =
    rw
      (
        get-merge_payload_preserving_richer k (merge_payload_preserving_richer a b) c hc,
        get-merge_payload_preserving_richer k a b hb,
        get-merge_payload_preserving_richer k a (merge_payload_preserving_richer b c)
            (merge-IsDict b c hb),
        get-merge_payload_preserving_richer k b c hc,
      )
      (richer_assoc (get k a) (get k b) (get k c))
