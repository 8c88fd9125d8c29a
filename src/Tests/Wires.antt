-- ===== src/Tests/Wires.antt =====
-- A bus whose messages are lists of typed values, and a manager that it leads to.
use mathlib.Core.Path.{subst, subst_refl}
use mathlib.Core.HLevel.{Discrete, hedberg}
use killjoy.Base.{String, ◌≡◌, refl, ap, ◌∙◌, ℕ, Option, none, some, List, [], ◌∷◌}
use killjoy.Error.{ok, err, ExternResult}
use killjoy.Dbus.{Dbus, ConnPath}
use killjoy.Generated.Systemd.Kinds.{Kind, Value, Values}
use killjoy.Generated.Systemd.Typed.{
  Typed, Line, Served, Property, Takes, handle_call, handle_set, find_method, find_property,
}
use killjoy.Generated.Systemd.Server.{
  Systemd, methods, properties, Wired, Answered, HasMethods, HasProperties,
}

pub Kind-discrete : Discrete Kind
Kind-discrete = (hlevel)

-- Foreign values are texts, file descriptors and f64 numbers are numbers.
abbrev pub Worth : Kind → Type 0
Worth = Value String ℕ ℕ

pub record Cell : Type 0 where
  pub kind : Kind
  pub value : Worth kind

abbrev pub missing : {A : Type 0} → ExternResult A
missing = err (record { text = "missing" })

abbrev pub wires : Dbus
wires = record {
  RefArg = String;
  as_str = λ s. some s;
  as_u64 = λ s. none;
  Message = List Cell;
  Iter = List Cell;
  iter_init = λ m. m;
  read_str = λ i. missing;
  read_path = λ i. missing;
  read_variant = λ i. missing;
  read_props = λ i. missing;
  read_strs = λ i. missing;
  read_units = λ i. missing;
  as_result = λ m. ok tt;
  message_path = λ m. none;
  bus_name_new = λ s. ok s;
  path_new = λ s. ok s;
  interface_new = λ s. ok s;
  member_new = λ s. ok s;
  bus_name_to_str = λ s. ok s;
  from_message = λ T name interface get m. none;
  match_str = λ name interface sender path. "";
  get_private = λ t b. ok tt;
  answer_add_match = λ t s. ok tt;
  answer_remove_match = λ t s. ok tt;
  method_call_with_args = λ t c interface member args. missing;
  send_with_reply_and_block = λ t b m timeout. ok tt;
}

-- A value of one type, asked for by another.
abbrev pub convert : (k l : Kind) → Dec (k ≡ l) → ExternResult (Worth k) → ExternResult (Worth l)
convert k l (yes e) x = subst (λ n. ExternResult (Worth n)) e x
convert k l (no n) x = missing

convert_same : (k : Kind) (d : Dec (k ≡ k)) (x : ExternResult (Worth k)) → convert k k d x ≡ x
convert_same k (yes e) x =
    ap (λ p. subst (λ n. ExternResult (Worth n)) p x) (hedberg Kind-discrete k k e refl)
    ∙ subst_refl (λ n. ExternResult (Worth n)) {x = k} x
convert_same k (no n) x = absurd (n refl)

abbrev pub beside : {A : Type 0} → ExternResult A → List Cell → ExternResult (A × List Cell)
beside (ok a) rest = ok (a, rest)
beside (err e) rest = err e

abbrev pub read_cell : (k : Kind) → List Cell → ExternResult (Worth k × List Cell)
read_cell k [] = missing
read_cell k (cell ∷ rest) =
    beside (convert cell.kind k (Kind-discrete cell.kind k) (ok cell.value)) rest

abbrev pub typed : Typed wires
typed = record { F64 = ℕ; OwnedFd = ℕ; read = read_cell }

abbrev pub cells : (ks : List Kind) → Values String ℕ ℕ ks → List Cell
cells [] vs = []
cells (k ∷ ks) (v, vs) = record { kind = k; value = v } ∷ cells ks vs

pub wired : Wired wires typed
wired = record {
  iter_of = cells;
  reads = λ k ks v vs. ap (λ x. beside x (cells ks vs)) (convert_same k (Kind-discrete k k) (ok v));
}

module _ (d : Systemd wires typed ℕ) (s : ℕ) where
  abbrev pub encode :
      (ks : List Kind) → ExternResult (Values String ℕ ℕ ks) → ExternResult (List Cell)
  encode ks (ok vs) = ok (cells ks vs)
  encode ks (err e) = err e

  abbrev pub call_found : Option (Served wires typed ℕ) → List Cell → ExternResult (List Cell)
  call_found none i = missing
  call_found (some m) i = encode m.outs (handle_call wires typed m i s).0

  abbrev pub get_found : Option (Property wires typed ℕ) → (k : Kind) → ExternResult (Worth k)
  get_found none k = missing
  get_found (some p) k = convert p.kind k (Kind-discrete p.kind k) (p.on_get s).0

  abbrev pub set_by :
      (k : Kind) → Option (Takes wires typed ℕ k) → List Cell → ExternResult (Unit {0})
  set_by k none i = missing
  set_by k (some f) i = (handle_set wires typed k f i s).0

  abbrev pub set_found : Option (Property wires typed ℕ) → List Cell → ExternResult (Unit {0})
  set_found none i = missing
  set_found (some p) i = set_by p.kind p.on_set i

  -- The connection to the implementation `d` in the state `s`.
  abbrev pub line : Line wires typed
  line = record {
    method_call_with_args = λ c interface member ks args.
        call_found (find_method wires typed member (methods wires typed d)) (cells ks args);
    get = λ c interface name k.
        get_found (find_property wires typed name (properties wires typed d)) k;
    set = λ c interface name k v.
        set_found (find_property wires typed name (properties wires typed d))
          (cells (k ∷ []) (v, tt));
  }

  encode_answers :
      (ks : List Kind) (x : ExternResult (Values String ℕ ℕ ks))
      → Answered wires typed line wired ks x (encode ks x)
  unfolding wired
  encode_answers ks (ok values) = (cells ks values, refl, refl, refl)
  encode_answers ks (err e) = refl

  pub has_methods : (c : ConnPath) → HasMethods wires typed line wired (methods wires typed d) s c
  unfolding wired
  has_methods c member m found args =
      rw found (encode_answers m.outs (handle_call wires typed m (cells m.ins args) s).0)

  pub has_properties :
      (c : ConnPath) → HasProperties wires typed line wired (properties wires typed d) s c
  unfolding wired
  has_properties c name p found = rw found (
    convert_same p.kind (Kind-discrete p.kind p.kind) (p.on_get s).0,
    λ f writable v. rw writable refl,
  )
