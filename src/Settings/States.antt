-- ===== src/Settings/States.antt =====
-- The set of states that a rule is about.
use mathlib.Core.Path.{subst}
use killjoy.Base.{
  String, Bool-cases, List, [], ◌∷◌, ◌≡◌, refl, sym, ◌∙◌, ◌↔◌, ◌⊎◌, inl, inr, ap, In, arith, any,
  true,
}
use killjoy.ActiveState.{ActiveState, state_eq, state_eq_iff}
use killjoy.Error.{Error, ok, map_err, >>=-eq-ok, map_err-eq-ok}
use killjoy.Unit.State.{try_from, to_string, try_from_iff}
use killjoy.Settings.Decode.{insert_state, decode_states}

-- The derived equality makes `any` a membership test.
pub any-state_eq :
    (s : ActiveState) (states : List ActiveState) → (any (state_eq s) states ≡ true) ↔ In s states
any-state_eq s [] = (λ h. cc, λ h. absurd h)
any-state_eq s (x ∷ xs) = let ih = any-state_eq s xs in let e = state_eq_iff s x in ground arith

In-insert_state :
    (t s : ActiveState) (states : List ActiveState)
    → In t (insert_state s states) ↔ ((s ≡ t) ⊎ In t states)
unfolding insert_state
In-insert_state t s states = elim (Bool-cases (any (state_eq s) states)) [
  | inl old ↦ rw old (
    λ m. inr m,
    λ m. elim m [
      | inl e ↦ subst (λ y. In y states) e ((any-state_eq s states).0 old)
      | inr m' ↦ m'
    ],
  )
  | inr new ↦ rw new (λ m. m, λ m. m)
]

to_string_inj : (s t : ActiveState) → to_string s ≡ to_string t → s ≡ t
to_string_inj s t e =
    let same : ok s ≡ ok t =
      sym ((try_from_iff (to_string s) s).1 refl) ∙ (try_from_iff (to_string s) t).1 e in
    cc

decode_states-In :
    (names : List String) (acc states : List ActiveState) (t : ActiveState)
    → decode_states names acc ≡ ok states
    → In t states ↔ (In t acc ⊎ In (to_string t) names)
unfolding decode_states
decode_states-In [] acc states t h =
    let same : acc ≡ states = cc in
    subst (λ x. In t x ↔ (In t acc ⊎ In (to_string t) [])) same
      (λ m. inl m, λ m. elim m [ inl a ↦ a | inr b ↦ absurd b ])
decode_states-In (name ∷ names) acc states t h =
    let first = map_err {D = Error} (λ _. Error.invalid_active_state name) (try_from name) in
    let (s, e, h') = >>=-eq-ok first (λ s. decode_states names (insert_state s acc)) h in
    let (f, g) = decode_states-In names (insert_state s acc) states t h' in
    let (f', g') = In-insert_state t s acc in
    let named : name ≡ to_string s =
      (try_from_iff name s).0
        (map_err-eq-ok (λ _. Error.invalid_active_state name) (try_from name) e) in
    (
      λ m. elim (f m) [
        | inl m' ↦ elim (f' m') [ inl q ↦ inr (inl (named ∙ ap to_string q)) | inr a ↦ inl a ]
        | inr b ↦ inr (inr b)
      ],
      λ m. elim m [
        | inl a ↦ g (inl (g' (inr a)))
        | inr (inl q) ↦ g (inl (g' (inl (to_string_inj s t (sym named ∙ q)))))
        | inr (inr b) ↦ g (inr b)
      ],
    )

-- If the states of a rule decode, then the set holds a state exactly when the rule names it.
pub decode_states_iff :
    (names : List String) (states : List ActiveState) (t : ActiveState)
    → decode_states names [] ≡ ok states
    → In t states ↔ In (to_string t) names
decode_states_iff names states t h =
    let (f, g) = decode_states-In names [] states t h in
    (λ m. elim (f m) [ inl a ↦ absurd a | inr b ↦ b ], λ m. g (inr m))
