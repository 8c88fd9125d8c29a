-- ===== src/Settings/Buses.antt =====
-- src/settings.rs: `get_bus_types`, with the hashable copy of the bus type.
use killjoy.Base.{
  Bool, true, false, List, [], ◌∷◌, map, any, Any, ap, sym, ◌∙◌, if◌then◌else◌, In, ◌≡◌, refl, ◌↔◌,
  inl, inr, arith, Bool-cases,
}
use mathlib.Core.Path.{subst}
use killjoy.Dbus.{BusType}
use killjoy.Settings.Regex.{RegexCrate}
use killjoy.Settings.Types.{Rule}

pub data HashableBusType : Type 0 where
  session starter system : HashableBusType

unfoldable pub from_bus_type : BusType → HashableBusType
from_bus_type BusType.session = HashableBusType.session
from_bus_type BusType.starter = HashableBusType.starter
from_bus_type BusType.system = HashableBusType.system

unfoldable pub into_bus_type : HashableBusType → BusType
into_bus_type HashableBusType.session = BusType.session
into_bus_type HashableBusType.starter = BusType.starter
into_bus_type HashableBusType.system = BusType.system

-- The derived `PartialEq`.
unfoldable pub bus_eq : HashableBusType → HashableBusType → Bool
bus_eq HashableBusType.session HashableBusType.session = true
bus_eq HashableBusType.starter HashableBusType.starter = true
bus_eq HashableBusType.system HashableBusType.system = true
bus_eq _ _ = false

-- `collect::<HashSet<_>>()`: a list without repetition. The order in which the hash set yields its
-- elements is unspecified; it is that of the last occurrences here.
unfoldable pub collect_set : List HashableBusType → List HashableBusType
unfolding bus_eq
collect_set [] = []
collect_set (b ∷ bs) = let rest = collect_set bs in if any (bus_eq b) rest then rest else b ∷ rest

module _ (R : RegexCrate) where
  unfoldable pub get_bus_types : List (Rule R) → List BusType
  unfolding from_bus_type into_bus_type collect_set
  get_bus_types rules =
      map into_bus_type (collect_set (map (λ rule. from_bus_type (Rule.bus_type rule)) rules))

bus_eq_iff : (a b : HashableBusType) → (bus_eq a b ≡ true) ↔ (a ≡ b)
unfolding bus_eq
bus_eq_iff a b = ground arith

-- No element stands twice.
abbrev pub IsNodup : {A : Type 0} → List A → Type 0
IsNodup [] = Unit
IsNodup (x ∷ xs) = (¬ In x xs) × IsNodup xs

In-of_any : (b : HashableBusType) (bs : List HashableBusType) → (any (bus_eq b) bs ≡ true) ↔ In b bs
In-of_any b [] = (λ h. cc, λ h. absurd h)
In-of_any b (x ∷ xs) = let ih = In-of_any b xs in let e = bus_eq_iff b x in ground arith

In-collect_set_step :
    (b x : HashableBusType) (xs rest : List HashableBusType)
    → (In b rest ↔ In b xs)
    → In b (if any (bus_eq x) rest then rest else x ∷ rest) ↔ In b (x ∷ xs)
In-collect_set_step b x xs rest ih = elim (Bool-cases (any (bus_eq x) rest)) [
  | inl old ↦ rw old (
    λ m. inr (ih.0 m),
    λ m. elim m [ inl e ↦ subst (λ y. In y rest) e ((In-of_any x rest).0 old) | inr m' ↦ ih.1 m' ],
  )
  | inr new ↦ rw new (
    λ m. elim m [ inl e ↦ inl e | inr m' ↦ inr (ih.0 m') ],
    λ m. elim m [ inl e ↦ inl e | inr m' ↦ inr (ih.1 m') ],
  )
]

In-collect_set : (b : HashableBusType) (bs : List HashableBusType) → In b (collect_set bs) ↔ In b bs
unfolding collect_set
In-collect_set b [] = (λ h. h, λ h. h)
In-collect_set b (x ∷ xs) = In-collect_set_step b x xs (collect_set xs) (In-collect_set b xs)

collect_set-IsNodup : (bs : List HashableBusType) → IsNodup (collect_set bs)
unfolding collect_set
collect_set-IsNodup [] = tt
collect_set-IsNodup (x ∷ xs) =
    let m = In-of_any x (collect_set xs) in let ih = collect_set-IsNodup xs in ground arith

-- The conversions to and from the hashable type are inverse.
pub into-from : (b : BusType) → into_bus_type (from_bus_type b) ≡ b
unfolding into_bus_type from_bus_type
into-from BusType.session = refl
into-from _ = refl

into_inj : (a b : HashableBusType) → into_bus_type a ≡ into_bus_type b → a ≡ b
unfolding into_bus_type
into_inj a b h = ground arith

In-map-into :
    (b : HashableBusType) (bs : List HashableBusType)
    → In (into_bus_type b) (map into_bus_type bs)
    → In b bs
In-map-into b [] h = h
In-map-into b (x ∷ xs) (inl e) = inl (into_inj x b e)
In-map-into b (x ∷ xs) (inr m) = inr (In-map-into b xs m)

map-into-In :
    (b : HashableBusType) (bs : List HashableBusType)
    → In b bs
    → In (into_bus_type b) (map into_bus_type bs)
map-into-In b [] h = h
map-into-In b (x ∷ xs) (inl e) = inl (ap into_bus_type e)
map-into-In b (x ∷ xs) (inr m) = inr (map-into-In b xs m)

map-into-IsNodup : (bs : List HashableBusType) → IsNodup bs → IsNodup (map into_bus_type bs)
map-into-IsNodup [] h = tt
map-into-IsNodup (x ∷ xs) (fresh, h) = (λ m. fresh (In-map-into x xs m), map-into-IsNodup xs h)

module _ (R : RegexCrate) where
  In-map-from :
      (b : BusType) (rules : List (Rule R))
      → In (from_bus_type b) (map (λ rule. from_bus_type (Rule.bus_type rule)) rules)
        ↔ Any (λ rule. Rule.bus_type rule ≡ b) rules
  In-map-from b [] = (λ h. h, λ h. h)
  In-map-from b (r ∷ rs) =
      let (f, g) = In-map-from b rs in
      (
        λ m. elim m [
          | inl e ↦ inl (sym (into-from (Rule.bus_type r)) ∙ ap into_bus_type e ∙ into-from b)
          | inr m' ↦ inr (f m')
        ],
        λ m. elim m [ inl e ↦ inl (ap from_bus_type e) | inr m' ↦ inr (g m') ],
      )

  -- The buses to watch are exactly those that a rule names, and none is there twice.
  pub get_bus_types_lem :
      (rules : List (Rule R))
      → IsNodup (get_bus_types R rules)
        × ((b : BusType)
            → In b (get_bus_types R rules) ↔ Any (λ rule. Rule.bus_type rule ≡ b) rules)
  unfolding get_bus_types
  get_bus_types_lem rules =
      let hs = map (λ rule. from_bus_type (Rule.bus_type rule)) rules in
      (
        map-into-IsNodup (collect_set hs) (collect_set-IsNodup hs),
        λ b. (
          λ m. (In-map-from b rules).0 (
              (In-collect_set (from_bus_type b) hs).0
                (In-map-into (from_bus_type b) (collect_set hs) (rw into-from m))),
          λ m. rw into-from at (
              map-into-In (from_bus_type b) (collect_set hs)
                ((In-collect_set (from_bus_type b) hs).1 ((In-map-from b rules).1 m))),
        ),
      )
