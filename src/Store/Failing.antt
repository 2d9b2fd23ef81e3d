-- ===== src/Store/Failing.antt =====
-- The methods of src/modules/bridge/operation_store.rs as sequences of statements: where the error of
-- a sequence comes from.
use im_bridge_rs.Common.{◌≡◌, refl, ◌⊎◌, inl, inr}
use im_bridge_rs.Errors.{Result, ok, err}
use im_bridge_rs.Store.{World, M, ◌>>=◌, and_then, or_handle, lift}

-- The error of a bind comes from one of its parts.
>>=-err-cases :
    {E A B : Type 0} (f : A → M E B) (v : World) (r : Result E A) (e : E)
    → (and_then (r, v) f).0 ≡ err e
    → ((r ≡ err e) × ((and_then (r, v) f).1 ≡ v))
      ⊎ ((a : A) × (r ≡ ok a) × ((f a v).0 ≡ err e) × ((and_then (r, v) f).1 ≡ (f a v).1))
>>=-err-cases f v (ok a) e h = inr (a, refl, h, refl)
>>=-err-cases f v (err x) e h = inl (cc h, refl)

pub >>=-err :
    {E A B : Type 0} (m : M E A) (f : A → M E B) (w : World) (e : E)
    → (◌>>=◌ m f w).0 ≡ err e
    → (((m w).0 ≡ err e) × ((◌>>=◌ m f w).1 ≡ (m w).1))
      ⊎ ((a : A) × ((m w).0 ≡ ok a)
          × ((f a (m w).1).0 ≡ err e)
          × ((◌>>=◌ m f w).1 ≡ (f a (m w).1).1))
>>=-err m f w e h = >>=-err-cases f (m w).1 (m w).0 e h

-- An error that passed through `mapping_err` is a mapped one.
pub mapping_err-err :
    {E F A : Type 0} (g : E → F) (r : Result E A) (v : World) (e : F)
    → (or_handle (r, v) (λ x. lift (err (g x)))).0 ≡ err e
    → (x : E) × (e ≡ g x)
mapping_err-err g (ok a) v e h = cc h
mapping_err-err g (err x) v e h = (x, cc h)

pub mapping_err-ok :
    {E F A : Type 0} (g : E → F) (r : Result E A) (v : World) (a : A)
    → (or_handle (r, v) (λ x. lift (err (g x)))).0 ≡ ok a
    → (r ≡ ok a) × ((or_handle (r, v) (λ x. lift {A = A} (err (g x)))).1 ≡ v)
mapping_err-ok g (ok a) v b h = (cc h, refl)
mapping_err-ok g (err x) v b h = cc h
