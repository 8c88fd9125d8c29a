-- ===== src/Error/Source.antt =====
-- `impl StdError for Error`
use mathlib.Core.Path.{subst}
use text.Mathlib.TextLemmas.{append_assoc}
use mathlib.Core.Option.{some-injective}
use killjoy.Base.{
  sym, refl, false, ◌≢◌, ◌↔◌, String, Option, none, some, ◌≡◌, ◌<>◌, true, ends_with,
  ends_with-append,
}
use killjoy.Error.{Error, ExternError, IntErrorKind, ParseIntError}
use killjoy.Error.Display.{display, debug_parse, debug_kind}

-- The `Display` of `ParseIntError`.
unfoldable pub parse_text : IntErrorKind → String
parse_text IntErrorKind.empty = "cannot parse integer from empty string"
parse_text IntErrorKind.invalid_digit = "invalid digit found in string"
parse_text IntErrorKind.pos_overflow = "number too large to fit in target type"
parse_text IntErrorKind.neg_overflow = "number too small to fit in target type"
parse_text IntErrorKind.zero = "number would be zero for non-zero type"

-- The foreign error below this one, if the program reports one.
unfoldable pub source : Error → Option ExternError
unfolding parse_text
source (Error.parse_loop_timeout_arg e) = some (record { text = parse_text e.kind })
source (Error.settings_file_deserialization_failed e) = some e
source (Error.settings_file_not_readable e) = some e
source (Error.invalid_regex e) = some e
source (Error.add_signal_match _ e) = some e
source (Error.call_properties_get_all e) = some e
source (Error.call_manager_get_unit e) = some e
source (Error.call_manager_list_units e) = some e
source (Error.call_manager_subscribe e) = some e
source (Error.cast_bus_name_to_str e) = some e
source (Error.connect_to_bus e) = some e
source (Error.get_unit_id e) = some e
source (Error.remove_signal_match _ e) = some e
source _ = none

ends_with-text :
    (p : String) (e x : ExternError) → some e ≡ some x → ends_with (p <> e.text) x.text ≡ true
ends_with-text p e x h =
    subst (λ y. ends_with (p <> e.text) y.text ≡ true) (some-injective e x h)
      (ends_with-append p e.text)

-- The same behind a match rule and its closing quote.
ends_with-rule :
    (p m q : String) (e x : ExternError)
    → some e ≡ some x
    → ends_with (p <> (m <> (q <> e.text))) x.text ≡ true
ends_with-rule p m q e x h =
    rw (← append_assoc m q e.text, ← append_assoc p (m <> q) e.text)
      (ends_with-text (p <> (m <> q)) e x h)

-- Not the error about the timeout, whose message has the `Debug` of its source.
abbrev IsShown : Error → Type 0
IsShown (Error.parse_loop_timeout_arg _) = ⊥
IsShown _ = Unit

source-ends :
    (e : Error) (x : ExternError)
    → source e ≡ some x
    → IsShown e
    → ends_with (display e) x.text ≡ true
unfolding display source
source-ends (Error.parse_loop_timeout_arg e) x h shown = absurd shown
source-ends (Error.settings_file_deserialization_failed e) x h shown = ends_with-text _ e x h
source-ends (Error.settings_file_not_readable e) x h shown = ends_with-text _ e x h
source-ends (Error.invalid_regex e) x h shown = ends_with-text _ e x h
source-ends (Error.add_signal_match m e) x h shown = ends_with-rule _ m _ e x h
source-ends (Error.call_properties_get_all e) x h shown = ends_with-text _ e x h
source-ends (Error.call_manager_get_unit e) x h shown = ends_with-text _ e x h
source-ends (Error.call_manager_list_units e) x h shown = ends_with-text _ e x h
source-ends (Error.call_manager_subscribe e) x h shown = ends_with-text _ e x h
source-ends (Error.cast_bus_name_to_str e) x h shown = ends_with-text _ e x h
source-ends (Error.connect_to_bus e) x h shown = ends_with-text _ e x h
source-ends (Error.get_unit_id e) x h shown = ends_with-text _ e x h
source-ends (Error.remove_signal_match m e) x h shown = ends_with-rule _ m _ e x h
source-ends _ x h shown = cc

parse-ends :
    (k : IntErrorKind)
    → ends_with (display (Error.parse_loop_timeout_arg (record { kind = k }))) (parse_text k)
      ≡ false
unfolding display debug_parse debug_kind parse_text ends_with
parse-ends IntErrorKind.empty = refl
parse-ends _ = refl

IsShown-of : (e : Error) → ((k : ParseIntError) → e ≢ Error.parse_loop_timeout_arg k) → IsShown e
IsShown-of (Error.parse_loop_timeout_arg k) h = absurd (h k refl)
IsShown-of _ h = tt

ends-IsShown :
    (e : Error) (x : ExternError)
    → source e ≡ some x
    → ends_with (display e) x.text ≡ true
    → (k : ParseIntError) → e ≢ Error.parse_loop_timeout_arg k
unfolding source
ends-IsShown (Error.parse_loop_timeout_arg e) x h ends k q =
    let p = parse-ends e.kind in
    let p' =
      subst (λ y. ends_with (display (Error.parse_loop_timeout_arg e)) (ExternError.text y) ≡ true)
        (sym (some-injective _ x h)) ends in
    cc
ends-IsShown _ x h ends k q = cc

-- If an error has a source, then its message ends with the text of the source, unless the error is
-- the one about parsing the timeout: its message never does.
pub display-source :
    (e : Error) (x : ExternError)
    → source e ≡ some x
    → (ends_with (display e) x.text ≡ true)
      ↔ ((k : ParseIntError) → e ≢ Error.parse_loop_timeout_arg k)
display-source e x h = (ends-IsShown e x h, λ k. source-ends e x h (IsShown-of e k))
