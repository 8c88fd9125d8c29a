-- ===== src/Generated/Systemd/Trip.antt =====
-- One client method, getter or setter against its counterpart in the server.
use killjoy.Base.{String, ◌≡◌, refl, some, List, [], ◌∷◌}
use killjoy.Error.{ExternResult, ok, err}
use killjoy.Dbus.{Dbus, ConnPath}
use killjoy.Generated.Client.{manager_interface}
use killjoy.Generated.Systemd.Kinds.{Kind}
use killjoy.Generated.Systemd.Typed.{
  Typed, Line, Val, Vals, Served, Property, Takes, read_all, ask, with_values, handle_call,
  handle_set, find_method, find_property, get_property, set_property, Obtains,
}
use killjoy.Generated.Systemd.Server.{Wired, Answered, HasMethods, HasProperties}

module _ (B : Dbus) (T : Typed B) (N : Line B T) (W : Wired B T) where
  read_all-iter_of :
      (ks : List Kind) (vs : Vals B T ks) → read_all B T ks (Wired.iter_of W ks vs) ≡ ok vs
  unfolding read_all
  read_all-iter_of [] vs = refl
  read_all-iter_of (k ∷ ks) (v, vs) = rw (Wired.reads W k ks v vs, read_all-iter_of ks vs) refl

  module _ {S : Type 0} (s : S) (c : ConnPath) where
    answered :
        (member : String) (m : Served B T S) (args : Vals B T m.ins)
        (x : ExternResult (Vals B T m.outs))
        → Answered B T N W m.outs x
            (Line.method_call_with_args N c manager_interface member m.ins args)
        → ask B T N member m.ins m.outs c args ≡ x
    unfolding ask
    answered member m args (ok values) (msg, sent, good, same) =
        rw (sent, good, same) (read_all-iter_of m.outs values)
    answered member m args (err e) sent = rw sent refl

    -- A client method and the server's method of its name.
    pub obtains :
        (ms : List (Served B T S))
        → HasMethods B T N W ms s c
        → (member : String) (m : Served B T S) → find_method B T member ms ≡ some m
        → Obtains B T m.ins m.outs (ask B T N member m.ins m.outs) m.does c s
    unfolding handle_call with_values
    obtains ms has member m found args =
        answered member m args (m.does args s).0
          (rw (read_all-iter_of m.ins args) at (has member m found args))

    -- A getter and a setter of a property of that name.
    pub gets :
        (ps : List (Property B T S))
        → HasProperties B T N W ps s c
        → (name : String) (p : Property B T S) → find_property B T name ps ≡ some p
        → get_property B T N name p.kind c ≡ (p.on_get s).0
    unfolding get_property
    gets ps has name p found = (has name p found).0

    pub sets :
        (ps : List (Property B T S))
        → HasProperties B T N W ps s c
        → (name : String) (p : Property B T S) → find_property B T name ps ≡ some p
        → (f : Takes B T S p.kind) → p.on_set ≡ some f
        → (v : Val B T p.kind) → set_property B T N name p.kind c v ≡ (f v s).0
    unfolding set_property handle_set with_values
    sets ps has name p found f writable v =
        rw (read_all-iter_of (p.kind ∷ []) (v, tt)) at ((has name p found).1 f writable v)
