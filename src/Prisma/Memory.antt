-- ===== src/Prisma/Memory.antt =====
-- A client over lists, which shows that the laws can hold.
use Prim.Native.Nat.{max}
use vowgrid_api.Common.{
  ℕ, suc, ◌≤◌, ◌≡◌, refl, ◌∙◌, Bool, not, Option, none, some, List, [], ◌∷◌, ◌++◌, filter, find,
  if◌then◌else◌, ◌==◌, arith,
}
use vowgrid_api.Prisma.Defs.{Prisma, IsLawful, replace}

abbrev later : {A : Type 0} → (A → A → Bool) → A → Option A → Option A
later before r none = some r
later before r (some s) = if before r s then some s else some r

-- The last of the rows that follow, and `best` so far.
abbrev last_from : {A : Type 0} → (A → Bool) → (A → A → Bool) → Option A → List A → Option A
last_from q before best [] = best
last_from q before best (r ∷ rows) =
    last_from q before (if q r then later before r best else best) rows

abbrev above : {A : Type 0} → (A → ℕ) → List A → ℕ
above id [] = 0
above id (r ∷ rows) = max (suc (id r)) (above id rows)

abbrev pub in_memory : Prisma
in_memory = record {
  Table = λ A. List A;
  rows = λ t. t;
  find_first = λ q t. find q t;
  find_many = λ q t. filter q t;
  find_last = λ q before t. last_from q before none t;
  create = λ r t. t ++ r ∷ [];
  update = λ q f t. replace q f t;
  delete = λ q t. filter (λ r. not (q r)) t;
  next_id = λ id t. above id t;
}

last_from-append :
    {A : Type 0} (q : A → Bool) (before : A → A → Bool) (best : Option A) (rows : List A) (r : A)
    → last_from q before best (rows ++ r ∷ []) ≡ (
        if q r then later before r (last_from q before best rows) else last_from q before best rows)
last_from-append q before best [] r = refl
last_from-append q before best (x ∷ rows) r =
    last_from-append q before (if q x then later before x best else best) rows r

later_lem :
    {A : Type 0} (q : A → Bool) (before : A → A → Bool) (r : A) (o : Option A)
    → (if q r then later before r o else o) ≡ (
        if q r
        then elim o [ none ↦ some r | some s ↦ if before r s then some s else some r ]
        else o)
later_lem q before r o = ground arith

above_fresh :
    {A : Type 0} (id : A → ℕ) (rows : List A) (n : ℕ)
    → above id rows ≤ n
    → find (λ r. id r == n) rows ≡ none
above_fresh id [] n h = refl
above_fresh id (r ∷ rows) n h = ground (arith, above_fresh id rows n)

pub in_memory_lawful : IsLawful in_memory
in_memory_lawful = record {
  find_first-eq = λ q t. refl;
  find_many-eq = λ q t. refl;
  rows-create = λ r t. refl;
  rows-update = λ q f t. refl;
  rows-delete = λ q t. refl;
  find_last-create = λ q before r t. last_from-append q before none t r ∙ later_lem q before r _;
  next_id-fresh = λ id t. above_fresh id t (above id t) (omega arith);
}
