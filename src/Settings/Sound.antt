-- ===== src/Settings/Sound.antt =====
-- What decoding a settings file guarantees of the settings.
use mathlib.Core.Path.{subst}
use killjoy.Base.{
  String, some, List, [], ◌∷◌, ◌==◌, ◌≡◌, refl, ◌↔◌, inl, inr, All, arith, Option-cases, Bool-cases,
}
use killjoy.Base.Dict.{Dict, insert, lookup, lookup-insert}
use killjoy.Error.{ok, ◌>>=◌, ◌>>◌, Result-cases, >>=-eq-ok}
use killjoy.Dbus.{Dbus, BusType}
use killjoy.Settings.Regex.{RegexCrate}
use killjoy.Settings.Types.{Notifier, Rule, Settings, new_notifier}
use killjoy.Settings.Decode.{
  SerdeNotifier, SerdeRule, SerdeSettings, decode_bus_type_str, decode_rule, decode_notifier,
  decode_notifiers, check_notifiers, decode_rules, decode_settings,
}

-- Two lists of the same length, related place by place.
abbrev pub Each : {A B : Type 0} → (A → B → Type 0) → List A → List B → Type 0
Each P [] [] = Unit
Each P (x ∷ xs) (y ∷ ys) = P x y × Each P xs ys
Each P _ _ = ⊥

-- A label under which a notifier is listed.
abbrev pub IsListed : Dict Notifier → String → Type 0
IsListed notifiers name = (n : Notifier) × (lookup name notifiers ≡ some n)

check_notifiers_sound :
    (notifiers : Dict Notifier) (names : List String)
    → check_notifiers notifiers names ≡ ok tt
    → All (IsListed notifiers) names
unfolding check_notifiers
check_notifiers_sound notifiers [] h = tt
check_notifiers_sound notifiers (name ∷ names) h = elim (Option-cases (lookup name notifiers)) [
  | inl e ↦ absurd (ground arith)
  | inr (n, e) ↦ ((n, e), check_notifiers_sound notifiers names (ground arith))
]

check_notifiers_complete :
    (notifiers : Dict Notifier) (names : List String)
    → All (IsListed notifiers) names
    → check_notifiers notifiers names ≡ ok tt
unfolding check_notifiers
check_notifiers_complete notifiers [] h = refl
check_notifiers_complete notifiers (name ∷ names) ((n, e), h) =
    rw (e, check_notifiers) (check_notifiers_complete notifiers names h)

module _ (B : Dbus) where
  -- A notifier whose bus name the dbus crate accepts.
  abbrev pub HasBusName : Notifier → Type 0
  HasBusName n = (name : String) × (Dbus.bus_name_new B n.bus_name ≡ ok name)

  new_notifier-HasBusName :
      (bus_name : String) (t : BusType) (n : Notifier)
      → new_notifier B bus_name t ≡ ok n
      → HasBusName n
  unfolding new_notifier
  new_notifier-HasBusName bus_name t n h = elim (Result-cases (Dbus.bus_name_new B bus_name)) [
    | inl (name, e) ↦ (name, ground arith)
    | inr (x, e) ↦ absurd (ground arith)
  ]

  decode_notifier-HasBusName :
      (value : SerdeNotifier) (n : Notifier) → decode_notifier B value ≡ ok n → HasBusName n
  unfolding decode_notifier
  decode_notifier-HasBusName value n h =
      let (t, e, h') =
        >>=-eq-ok (decode_bus_type_str value.bus_type) (new_notifier B value.bus_name) h in
      new_notifier-HasBusName value.bus_name t n h'

  abbrev pub AllNamed : Dict Notifier → Type 0
  AllNamed notifiers = (k : String) (n : Notifier) → lookup k notifiers ≡ some n → HasBusName n

  AllNamed-nil : AllNamed []
  unfolding lookup
  AllNamed-nil k n e = absurd (ground arith)

  insert-AllNamed :
      (k : String) (n : Notifier) (m : Dict Notifier)
      → HasBusName n
      → AllNamed m
      → AllNamed (insert k n m)
  insert-AllNamed k n m v h j x e = elim (Bool-cases (k == j)) [
    | inl same ↦ let p : n ≡ x = ground (arith, lookup-insert k j n m) in subst HasBusName p v
    | inr other ↦ h j x (ground (arith, lookup-insert k j n m))
  ]

  decode_notifiers-AllNamed :
      (m : Dict SerdeNotifier) (acc out : Dict Notifier)
      → AllNamed acc
      → decode_notifiers B m acc ≡ ok out
      → AllNamed out
  unfolding decode_notifiers
  decode_notifiers-AllNamed [] acc out named h = subst AllNamed (ground arith) named
  decode_notifiers-AllNamed ((k, v) ∷ m) acc out named h =
      let (n, e, h') =
        >>=-eq-ok (decode_notifier B v) (λ n. decode_notifiers B m (insert k n acc)) h in
      decode_notifiers-AllNamed m (insert k n acc) out
        (insert-AllNamed k n acc (decode_notifier-HasBusName v n e) named) h'

module _ (B : Dbus) (R : RegexCrate) where
  -- A rule is what its text decodes to, and all its notifiers are listed.
  abbrev pub IsDecoded : Dict Notifier → SerdeRule → Rule R → Type 0
  IsDecoded notifiers value rule =
      (decode_rule R value ≡ ok rule) × All (IsListed notifiers) (Rule.notifiers rule)

  decode_rules_sound :
      (notifiers : Dict Notifier) (values : List SerdeRule) (rules : List (Rule R))
      → decode_rules B R notifiers values ≡ ok rules
      → Each (IsDecoded notifiers) values rules
  unfolding decode_rules
  decode_rules_sound notifiers [] [] h = tt
  decode_rules_sound notifiers [] (r ∷ rs) h = absurd (ground arith)
  decode_rules_sound notifiers (v ∷ vs) rules h =
      let more = λ (r : Rule R). decode_rules B R notifiers vs >>= λ rs. ok (r ∷ rs) in
      let (r, e, h') =
        >>=-eq-ok (decode_rule R v) (λ r. check_notifiers notifiers (Rule.notifiers r) >> more r)
          h in
      let (_, checked, h'') =
        >>=-eq-ok (check_notifiers notifiers (Rule.notifiers r)) (λ _. more r) h' in
      let (rs, e', last) = >>=-eq-ok (decode_rules B R notifiers vs) (λ rs. ok (r ∷ rs)) h'' in
      let same : r ∷ rs ≡ rules = cc in
      subst (Each (IsDecoded notifiers) (v ∷ vs)) same (
        (e, check_notifiers_sound notifiers (Rule.notifiers r) checked),
        decode_rules_sound notifiers vs rs e',
      )

  decode_rules_complete :
      (notifiers : Dict Notifier) (values : List SerdeRule) (rules : List (Rule R))
      → Each (IsDecoded notifiers) values rules
      → decode_rules B R notifiers values ≡ ok rules
  unfolding decode_rules
  decode_rules_complete notifiers [] [] h = refl
  decode_rules_complete notifiers [] (r ∷ rs) h = absurd h
  decode_rules_complete notifiers (v ∷ vs) [] h = absurd h
  decode_rules_complete notifiers (v ∷ vs) (r ∷ rs) ((e, listed), h) = rw (
    e,
    check_notifiers_complete notifiers (Rule.notifiers r) listed,
    decode_rules_complete notifiers vs rs h,
  )

  -- The rules of a file decode exactly when each decodes by itself and names notifiers that are
  -- listed; they are then decoded one by one, in the order of the file.
  pub decode_rules_iff :
      (notifiers : Dict Notifier) (values : List SerdeRule) (rules : List (Rule R))
      → (decode_rules B R notifiers values ≡ ok rules) ↔ Each (IsDecoded notifiers) values rules
  decode_rules_iff notifiers values rules =
      (decode_rules_sound notifiers values rules, decode_rules_complete notifiers values rules)

  -- Every notifier has a valid bus name, and every notifier that a rule names is listed.
  pub record IsSound (settings : Settings R) : Type 0 where
    pub named : AllNamed B (Settings.notifiers settings)
    pub listed :
        All
          (λ rule. All (IsListed (Settings.notifiers settings)) (Rule.notifiers rule))
          (Settings.rules settings)

  Each-IsListed :
      (notifiers : Dict Notifier) (values : List SerdeRule) (rules : List (Rule R))
      → Each (IsDecoded notifiers) values rules
      → All (λ rule. All (IsListed notifiers) (Rule.notifiers rule)) rules
  Each-IsListed notifiers [] [] h = tt
  Each-IsListed notifiers [] (r ∷ rs) h = absurd h
  Each-IsListed notifiers (v ∷ vs) [] h = absurd h
  Each-IsListed notifiers (v ∷ vs) (r ∷ rs) ((_, l), h) = (l, Each-IsListed notifiers vs rs h)

  -- Settings that are accepted are sound: no bus name is invalid, and no rule names a notifier
  -- that is not there.
  pub decode_settings-IsSound :
      (value : SerdeSettings) (settings : Settings R)
      → decode_settings B R value ≡ ok settings
      → IsSound settings
  unfolding decode_settings
  decode_settings-IsSound value settings h =
      let rest = λ (ns : Dict Notifier).
        decode_rules B R ns value.rules >>= λ rs. ok (record { notifiers = ns; rules = rs }) in
      let (ns, e, h') = >>=-eq-ok (decode_notifiers B value.notifiers []) rest h in
      let (rs, e', last) =
        >>=-eq-ok (decode_rules B R ns value.rules)
          (λ rs. ok (record { notifiers = ns; rules = rs })) h' in
      let same : record { notifiers = ns; rules = rs } ≡ settings = cc in
      subst IsSound same (record {
        named = decode_notifiers-AllNamed B value.notifiers [] ns (AllNamed-nil B) e;
        listed = Each-IsListed ns value.rules rs (decode_rules_sound ns value.rules rs e');
      })
