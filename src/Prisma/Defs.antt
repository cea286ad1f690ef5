-- ===== src/Prisma/Defs.antt =====
-- The queries, and what the documentation of the client says of them.
use vowgrid_api.Common.{
  ℕ, ◌≡◌, Bool, not, Option, none, some, List, [], ◌∷◌, ◌++◌, map, filter, find, if◌then◌else◌,
  ◌==◌,
}

abbrev pub replace : {A : Type 0} → (A → Bool) → (A → A) → List A → List A
replace p f rows = map (λ r. if p r then f r else r) rows

pub record Prisma : Type 1 where
  pub Table : Type 0 → Type 0
  pub rows : {A : Type 0} → Table A → List A
  -- `findFirst` and `findUnique`, by the condition of the `where` clause
  pub find_first : {A : Type 0} → (A → Bool) → Table A → Option A
  pub find_many : {A : Type 0} → (A → Bool) → Table A → List A
  -- `findFirst` under `orderBy`: the last row, in the order that is given
  pub find_last : {A : Type 0} → (A → Bool) → (A → A → Bool) → Table A → Option A
  pub create : {A : Type 0} → A → Table A → Table A
  pub update : {A : Type 0} → (A → Bool) → (A → A) → Table A → Table A
  pub delete : {A : Type 0} → (A → Bool) → Table A → Table A
  -- a fresh id
  pub next_id : {A : Type 0} → (A → ℕ) → Table A → ℕ

pub record IsLawful (p : Prisma) : Type 1 where
  pub find_first-eq :
      {A : Type 0} (q : A → Bool) (t : p.Table A) → p.find_first q t ≡ find q (p.rows t)
  pub find_many-eq :
      {A : Type 0} (q : A → Bool) (t : p.Table A) → p.find_many q t ≡ filter q (p.rows t)
  pub rows-create :
      {A : Type 0} (r : A) (t : p.Table A) → p.rows (p.create r t) ≡ p.rows t ++ r ∷ []
  pub rows-update :
      {A : Type 0} (q : A → Bool) (f : A → A) (t : p.Table A)
      → p.rows (p.update q f t) ≡ replace q f (p.rows t)
  pub rows-delete :
      {A : Type 0} (q : A → Bool) (t : p.Table A)
      → p.rows (p.delete q t) ≡ filter (λ r. not (q r)) (p.rows t)
  -- a new row is the last one unless it comes before the one that was
  pub find_last-create :
      {A : Type 0} (q : A → Bool) (before : A → A → Bool) (r : A) (t : p.Table A)
      → p.find_last q before (p.create r t) ≡ (
          if q r
          then elim (p.find_last q before t) [
            | none ↦ some r
            | some s ↦ if before r s then some s else some r
          ]
          else p.find_last q before t)
  pub next_id-fresh :
      {A : Type 0} (id : A → ℕ) (t : p.Table A)
      → find (λ r. id r == p.next_id id t) (p.rows t) ≡ none
