-- ===== src/Engine/Tracking/Aging.antt =====
-- What one poll makes of the cooldowns of gamecollect/engine.py.
pub mod Lapse
pub mod Gate
use gamealerts_collector.Prelude.{
  ℕ, zero, suc, ◌+◌, ◌-◌, ◌*◌, ◌≤◌, ◌<◌, min, String, ◌≡◌, ◌≢◌, refl, ◌⊎◌, sym, ◌∙◌, ap, subst, inl,
  inr, Bool, true, false, not, ◌||◌, ◌&&◌, List, [], ◌∷◌, Option, none, some, arith, ltb, leb,
  length, All, ◌==◌, ==_iff, string_eq, if◌then◌else◌, Bool-cases,
}
use gamealerts_collector.Dict.{Dict, get, contains, insert, remove, IsDict, get-insert, get-remove}
use gamealerts_collector.Provider.{NormalizedMatch}
use gamealerts_collector.Engine.Tracking.{
  Cooldown, Tracker, Tracking, aged, is_purged, is_seen, age_entries, to_purge, evict_all,
  evict_match_tracking, age_cooldowns, cooling_down, power_of_two, next_epoch, carry,
  enter_cooldown, listed,
}

-- The polls that an epoch is to wait.
abbrev pub interval : ℕ → ℕ
interval epoch = min (8 * power_of_two (epoch - 1)) 256

power_of_two-positive : (n : ℕ) → 1 ≤ power_of_two n
unfolding power_of_two
power_of_two-positive zero = omega arith
power_of_two-positive (suc n) = omega (arith, power_of_two-positive n)

pub interval_bounds : (n : ℕ) → (8 ≤ interval n) × (interval n ≤ 256)
interval_bounds n = omega (arith, power_of_two-positive (n - 1))

pub interval_doubles : (n : ℕ) → 1 ≤ n → interval (n + 1) ≡ min (2 * interval n) 256
interval_doubles zero h = omega arith
interval_doubles (suc n) h =
    let later : suc n + 1 - 1 ≡ suc n = omega arith in
    let now : suc n - 1 ≡ n = omega arith in
    let twice : power_of_two (suc n) ≡ 2 * power_of_two n = unfold power_of_two in refl in
    omega (arith, ap power_of_two later, ap power_of_two now, twice, power_of_two-positive n)

-- What aging makes of a match's cooldown.
abbrev pub age_one : Bool → Option Cooldown → Option Cooldown
age_one sees none = none
age_one sees (some c) = if is_purged sees c then none else some (aged sees c)

get-evict_all :
    (id : String) (ids : List String) (t : Tracking)
    → get id (evict_all ids t).cooldowns ≡ (if listed id ids then none else get id t.cooldowns)
unfolding evict_all listed evict_match_tracking
get-evict_all id [] t = refl
get-evict_all id (x ∷ ids) t =
    ground
      (arith, get-evict_all id ids (evict_match_tracking x true t), get-remove x id t.cooldowns)

get-age_entries :
    (id : String) (sees : String → Bool) (d : Dict Cooldown)
    → get id (age_entries sees d)
      ≡ elim (get id d) [ none ↦ none | some c ↦ some (aged (sees id) c) ]
unfolding age_entries
get-age_entries id sees [] = refl
get-age_entries id sees ((k, c) ∷ d) = ground (arith, ==_iff k id, get-age_entries id sees d)

to_purge-absent :
    (id : String) (sees : String → Bool) (d : Dict Cooldown)
    → contains id d ≡ false
    → listed id (to_purge sees d) ≡ false
unfolding to_purge listed
to_purge-absent id sees [] h = refl
to_purge-absent id sees ((k, c) ∷ d) h = ground (arith, to_purge-absent id sees d)

-- Whether a match's cooldown is to be purged.
abbrev purges : Bool → Option Cooldown → Bool
purges sees none = false
purges sees (some c) = is_purged sees c

listed-to_purge :
    (id : String) (sees : String → Bool) (d : Dict Cooldown)
    → IsDict d
    → listed id (to_purge sees d) ≡ purges (sees id) (get id d)
unfolding to_purge listed
listed-to_purge id sees [] h = refl
listed-to_purge id sees ((k, c) ∷ d) h =
    by_key (Bool-cases (k == id)) (listed-to_purge id sees d h.1)
  where
    by_key :
        ((k == id) ≡ true) ⊎ ((k == id) ≡ false)
        → listed id (to_purge sees d) ≡ purges (sees id) (get id d)
        → listed id (to_purge sees ((k, c) ∷ d)) ≡ purges (sees id) (get id ((k, c) ∷ d))
    by_key (inl e) ih =
        let same : k ≡ id = (==_iff k id).0 e in
        let absent = to_purge-absent id sees d (subst (λ x. contains x d ≡ false) same h.0) in
        let purged : is_purged (sees k) c ≡ is_purged (sees id) c =
          ap (λ x. is_purged (sees x) c) same in
        rw e (head_of (is_purged (sees k) c) absent ∙ purged)
      where
        head_of :
            (b : Bool)
            → listed id (to_purge sees d) ≡ false
            → listed id (if b then k ∷ to_purge sees d else to_purge sees d) ≡ b
        head_of true a = rw e refl
        head_of false a = a
    by_key (inr e) ih = rw e (tail_of (is_purged (sees k) c) ∙ ih)
      where
        tail_of :
            (b : Bool)
            → listed id (if b then k ∷ to_purge sees d else to_purge sees d)
              ≡ listed id (to_purge sees d)
        tail_of true = rw e refl
        tail_of false = refl

age_one_of :
    (sees : Bool) (o : Option Cooldown)
    → (if purges sees o then none else elim o [ none ↦ none | some c ↦ some (aged sees c) ])
      ≡ age_one sees o
age_one_of sees none = refl
age_one_of sees (some c) = refl

pub get-age_cooldowns :
    (id : String) (slate : List String) (t : Tracking)
    → IsDict t.cooldowns
    → get id (age_cooldowns slate t).cooldowns ≡ age_one (is_seen slate t id) (get id t.cooldowns)
unfolding age_cooldowns
get-age_cooldowns id slate t h =
    get-evict_all id (to_purge (is_seen slate t) t.cooldowns)
      (record t { cooldowns = age_entries (is_seen slate t) t.cooldowns })
    ∙ rw
        (
          listed-to_purge id (is_seen slate t) t.cooldowns h,
          get-age_entries id (is_seen slate t) t.cooldowns,
        )
        (age_one_of (is_seen slate t id) (get id t.cooldowns))

contains-age_entries :
    (id : String) (sees : String → Bool) (d : Dict Cooldown)
    → contains id (age_entries sees d) ≡ contains id d
unfolding age_entries
contains-age_entries id sees [] = refl
contains-age_entries id sees ((k, c) ∷ d) = ground (arith, contains-age_entries id sees d)

age_entries-IsDict :
    (sees : String → Bool) (d : Dict Cooldown) → IsDict d → IsDict (age_entries sees d)
unfolding age_entries
age_entries-IsDict sees [] h = tt
age_entries-IsDict sees ((k, c) ∷ d) h =
    (contains-age_entries k sees d ∙ h.0, age_entries-IsDict sees d h.1)

pub remove-IsDict : {V : Type 0} (id : String) (d : Dict V) → IsDict d → IsDict (remove id d)
unfolding remove
remove-IsDict id [] h = tt
remove-IsDict id ((k, v) ∷ d) h = ground (arith, get-remove id k d, remove-IsDict id d h.1)

evict_all-IsDict :
    (ids : List String) (t : Tracking) → IsDict t.cooldowns → IsDict (evict_all ids t).cooldowns
unfolding evict_all evict_match_tracking
evict_all-IsDict [] t h = h
evict_all-IsDict (x ∷ ids) t h =
    evict_all-IsDict ids (evict_match_tracking x true t) (remove-IsDict x t.cooldowns h)

pub age_cooldowns-IsDict :
    (slate : List String) (t : Tracking)
    → IsDict t.cooldowns
    → IsDict (age_cooldowns slate t).cooldowns
unfolding age_cooldowns
age_cooldowns-IsDict slate t h =
    evict_all-IsDict (to_purge (is_seen slate t) t.cooldowns) _
      (age_entries-IsDict (is_seen slate t) t.cooldowns h)
