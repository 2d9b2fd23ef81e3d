-- ===== src/Store/Effects.antt =====
-- How a method of the store meets the database. A method awaits each of its statements; before each
-- one any statements of other tasks may take effect, and the statement itself may fail.
use im_bridge_rs.Common.{String, Bool, false, List, [], ◌∷◌, if◌then◌else◌}
use im_bridge_rs.Errors.{Result, AppError, AppResult, ok, err, database_error}
use im_bridge_rs.Store.Statements.{Db, Statement, run, run_all}

-- What happens at one statement: the statements of others before it, and whether it fails. A
-- failure that comes after its effect is one where the effect is among the others' statements.
pub record Turn : Type 0 where
  pub others : List Statement
  pub fault : Bool

pub record World : Type 0 where
  pub db : Db
  -- what happens at the coming statements; when the list is used up, nothing interferes
  pub turns : List Turn
  -- the ids of the operations whose mutation was sent to the backend, latest first
  pub dispatched : List String

abbrev pub M : Type 0 → Type 0 → Type 0
M E A = World → Result E A × World

abbrev pub and_then : {E A B : Type 0} → Result E A × World → (A → M E B) → Result E B × World
and_then (ok a, w) f = f a w
and_then (err e, w) f = (err e, w)

infixl 5 ◌>>=◌ ◌>>◌
abbrev pub ◌>>=◌ : {E A B : Type 0} → M E A → (A → M E B) → M E B
◌>>=◌ m f w = and_then (m w) f

abbrev pub ◌>>◌ : {E A B : Type 0} → M E A → M E B → M E B
m >> k = m >>= λ _. k

-- A result that needs no statement.
abbrev pub lift : {E A : Type 0} → Result E A → M E A
lift r w = (r, w)

abbrev pub or_handle : {E F A : Type 0} → Result E A × World → (E → M F A) → Result F A × World
or_handle (ok a, w) h = (ok a, w)
or_handle (err e, w) h = h e w

-- `match m {Err(e) => h(e), ok => ok }`, and `map_err`
abbrev pub catch : {E F A : Type 0} → M E A → (E → M F A) → M F A
catch m h w = or_handle (m w) h

abbrev pub mapping_err : {E F A : Type 0} → (E → F) → M E A → M F A
mapping_err f m = catch m (λ e. lift (err (f e)))

abbrev start : List Turn → World → Bool × World
start [] w = (false, w)
start (t ∷ ts) w = (t.fault, record w { db = run_all t.others w.db; turns = ts })

unfoldable pub begin : World → Bool × World
begin w = start w.turns w

-- A statement that writes; its result is read off the table that it meets.
unfoldable pub execute : {A : Type 0} → Statement → (Db → A) → M AppError A
unfolding begin
execute s result w =
    let (fault, w') = begin w in
    if fault then (err database_error, w') else (ok (result w'.db), record w' { db = run s w'.db })

-- A SELECT
unfoldable pub fetch : {A : Type 0} → (Db → AppResult A) → M AppError A
unfolding begin
fetch query w =
    let (fault, w') = begin w in if fault then (err database_error, w') else (query w'.db, w')
