-- ===== src/Errors/Binding.antt =====
-- `Result` in the bridge: where a success comes from.
use im_bridge_rs.Common.{Bool, true, false, Option, none, some, ◌≡◌, refl, ◌⊎◌, inl, inr}
use im_bridge_rs.Errors.Outcome.{Result, ok, err, ok_or, map_err, refuse_if, ◌>>=◌}

pub bind-ok :
    {E A B : Type 0} (m : Result E A) (f : A → Result E B) (b : B)
    → (m >>= f) ≡ ok b
    → (a : A) × (m ≡ ok a) × (f a ≡ ok b)
bind-ok (ok a) f b h = (a, refl, h)
bind-ok (err e) f b h = cc h

pub ok_or-some : {E A : Type 0} (o : Option A) (e : E) (a : A) → ok_or o e ≡ ok a → o ≡ some a
ok_or-some none e a h = cc h
ok_or-some (some x) e a h = cc h

pub map_err-ok :
    {E F A : Type 0} (f : E → F) (m : Result E A) (a : A) → map_err f m ≡ ok a → m ≡ ok a
map_err-ok f (ok x) a h = cc h
map_err-ok f (err e) a h = cc h

pub refuse_if-ok : {E : Type 0} (b : Bool) (e : E) (u : Unit) → refuse_if b e ≡ ok u → b ≡ false
refuse_if-ok true e u h = cc h
refuse_if-ok false e u h = refl

pub Result-cases :
    {E A : Type 0} (r : Result E A) → ((a : A) × (r ≡ ok a)) ⊎ ((e : E) × (r ≡ err e))
Result-cases (ok a) = inl (a, refl)
Result-cases (err e) = inr (e, refl)
