-- ===== src/Football/Orientation/Lookup.antt =====
-- What stands under a key of a dict that gamecollect_football/reconcile.py turns round.
use gamealerts_collector.Prelude.{
  ◌≡◌, refl, ap, ◌⊎◌, inl, inr, Bool-cases, false, String, Option, none, some, if◌then◌else◌, ◌==◌,
  ==_iff, string_eq, arith,
}
use gamealerts_collector.Dict.{get, insert, remove, get-insert, get-remove}
use gamealerts_collector.Json.{Value, null, bool, int, float, str, array, object, Payload, value_eq}
use gamealerts_collector.Football.Orientation.{swap_keys, flip_side_value, update_key}

-- the key whose value stands under a key after the swap
abbrev pub swapped : String → String → String → String
swapped home away k = if k == home then away else if k == away then home else k

pub get-swap_keys :
    (home away k : String) (d : Payload)
    → (home == away) ≡ false
    → get k (swap_keys home away d) ≡ get (swapped home away k) d
unfolding swap_keys
get-swap_keys home away k d apart = by_values (get home d) (get away d) refl refl
  where
    by_values :
        (v w : Option Value)
        → get home d ≡ v
        → get away d ≡ w
        → get k (swap_keys home away d) ≡ get (swapped home away k) d
    by_values none none e f =
        ground (arith, ==_iff k home, ==_iff home k, ==_iff k away, ==_iff away k, ==_iff home away)
    by_values none (some w) e f = ground (
      arith,
      ==_iff k home,
      ==_iff home k,
      ==_iff k away,
      ==_iff away k,
      ==_iff home away,
      get-remove away k (insert home w d),
      get-insert home k w d,
    )
    by_values (some v) none e f = ground (
      arith,
      ==_iff k home,
      ==_iff home k,
      ==_iff k away,
      ==_iff away k,
      ==_iff home away,
      get-insert away k v (remove home d),
      get-remove home k d,
    )
    by_values (some v) (some w) e f = ground (
      arith,
      ==_iff k home,
      ==_iff home k,
      ==_iff k away,
      ==_iff away k,
      ==_iff home away,
      get-insert away k v (insert home w d),
      get-insert home k w d,
    )

pub get-update_key :
    (f : Value → Value) (key k : String) (d : Payload)
    → get k (update_key f key d)
      ≡ (if key == k then (elim (get key d) [ none ↦ none | some v ↦ some (f v) ]) else get k d)
unfolding update_key
get-update_key f key k d = by_value (get key d) refl
  where
    by_value :
        (v : Option Value)
        → get key d ≡ v
        → get k (update_key f key d)
          ≡ (if key == k then (elim v [ none ↦ none | some v ↦ some (f v) ]) else get k d)
    by_value none e = ground (arith, ==_iff key k)
    by_value (some v) e = ground (arith, ==_iff key k, get-insert key k (f v) d)

pub equal_or_apart : (k j : String) → (k ≡ j) ⊎ ((k == j) ≡ false)
equal_or_apart k j = elim (Bool-cases (k == j)) [ inl e ↦ inl ((==_iff k j).0 e) | inr e ↦ inr e ]

abbrev pub on_value : (Value → Value) → Option Value → Option Value
on_value f o = elim o [ none ↦ none | some v ↦ some (f v) ]

-- The other one of the two sides that a text names.
abbrev pub other_side : Value → Value
other_side (str s) = str (if s == "home" then "away" else if s == "away" then "home" else s)
other_side v = v

pub flip_side_value-other_side : (v : Value) → flip_side_value v ≡ other_side v
unfolding flip_side_value gamealerts_collector.Json.Value-discrete
flip_side_value-other_side (str s) = ground (
  arith,
  ==_iff s "home",
  ==_iff s "away",
  ==_iff (str s) (str "home"),
  ==_iff (str s) (str "away"),
)
flip_side_value-other_side null = refl
flip_side_value-other_side (bool b) = refl
flip_side_value-other_side (int n) = refl
flip_side_value-other_side (float x) = refl
flip_side_value-other_side (array xs) = refl
flip_side_value-other_side (object fs) = refl

pub on_value-other_side : (o : Option Value) → on_value flip_side_value o ≡ on_value other_side o
on_value-other_side none = refl
on_value-other_side (some v) = ap some (flip_side_value-other_side v)
