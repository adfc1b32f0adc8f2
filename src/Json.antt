-- ===== src/Json.antt =====
-- The JSON values that travel in a payload, and what json.dumps(…, sort_keys=True) makes of
-- them (gamecollect/provider.py: is_empty_payload_value, merge_payload_preserving_richer).
-- The text that json.dumps writes is represented by the value with the keys of every object in
-- order, from which json.loads takes the value back. A float is carried by its text.
pub mod Merge
use Prim.Native.String.{compare}
use Prim.Native.Nat.{Ordering}
use gamealerts_collector.Prelude.{
  ℕ, String, Bool, true, false, ◌||◌, not, List, [], ◌∷◌, if◌then◌else◌, Eq, dec_beq, dec_beq_iff,
  string_discrete, ℕ_discrete,
}
use gamealerts_collector.Dict.{Dict, contains, insert}

mutual
  pub data Value : Type 0 where
    null : Value
    bool : Bool → Value
    int : ℕ → Value
    float : String → Value
    str : String → Value
    array : Items → Value
    object : Fields → Value

  pub data Fields : Type 0 where
    end : Fields
    field : String → Value → Fields → Fields

  pub data Items : Type 0 where
    nil : Items
    cons : Value → Items → Items

unfoldable pub Value-discrete : Discrete Value
unfolding string_discrete ℕ_discrete
Value-discrete = hlevel (ℕ_discrete, string_discrete)

unfoldable pub Fields-discrete : Discrete Fields
unfolding string_discrete ℕ_discrete
Fields-discrete = hlevel (ℕ_discrete, string_discrete)

instance abbrev pub value_eq : Eq Value
value_eq = record { same = dec_beq Value-discrete; same_iff = dec_beq_iff Value-discrete }

instance abbrev pub fields_eq : Eq Fields
fields_eq = record { same = dec_beq Fields-discrete; same_iff = dec_beq_iff Fields-discrete }

abbrev pub Payload : Type 0
Payload = Dict Value

-- None, "", [] and {}; zero and False are data
unfoldable pub is_empty_payload_value : Value → Bool
is_empty_payload_value null = true
is_empty_payload_value (str s) = elim s [ String.[] ↦ true | String.◌∷◌ _ _ ↦ false ]
is_empty_payload_value (array nil) = true
is_empty_payload_value (object end) = true
is_empty_payload_value _ = false

-- the body of the loop over `incoming.items()`
unfoldable pub merge_item : Payload → String → Value → Payload
merge_item merged key value =
    if not (contains key merged) || not (is_empty_payload_value value)
    then insert key value merged
    else merged

unfoldable pub merge_payload_preserving_richer : Payload → Payload → Payload
unfolding merge_item
merge_payload_preserving_richer base [] = base
merge_payload_preserving_richer base ((key, value) ∷ incoming) =
    merge_payload_preserving_richer (merge_item base key value) incoming

-- the order of the keys of an object: by code points
abbrev pub text_le : String → String → Bool
text_le s t = elim (compare s t) [ Ordering.gt ↦ false | _ ↦ true ]

unfoldable pub insert_field : String → Value → Fields → Fields
insert_field k v end = field k v end
insert_field k v (field j w fs) =
    if text_le k j then field k v (field j w fs) else field j w (insert_field k v fs)

unfoldable mutual
  unfolding insert_field

  pub sort_value : Value → Value
  sort_value null = null
  sort_value (bool b) = bool b
  sort_value (int n) = int n
  sort_value (float s) = float s
  sort_value (str s) = str s
  sort_value (array xs) = array (sort_items xs)
  sort_value (object fs) = object (sort_fields fs)

  pub sort_items : Items → Items
  sort_items nil = nil
  sort_items (cons x xs) = cons (sort_value x) (sort_items xs)

  pub sort_fields : Fields → Fields
  sort_fields end = end
  sort_fields (field k v fs) = insert_field k (sort_value v) (sort_fields fs)

unfoldable pub fields_of : Payload → Fields
fields_of [] = end
fields_of ((k, v) ∷ d) = field k v (fields_of d)

-- json.dumps(payload, sort_keys=True, ensure_ascii=False)
unfoldable pub dumps : Payload → Fields
unfolding fields_of sort_fields insert_field
dumps payload = sort_fields (fields_of payload)
